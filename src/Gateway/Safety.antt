-- ===== src/Gateway/Safety.antt =====
-- aisecure/safety.py: the operator's emergency stop.
use aisecure.Result.{Result, ok, err, emergency_stop}

-- what `lstat` of the sentinel's path finds; `unset` is no path
pub data Sentinel : Type 0 where
  unset absent present unreadable : Sentinel

unfoldable pub assert_clear : Sentinel → Result (Unit {0})
assert_clear unset = ok tt
assert_clear absent = ok tt
assert_clear present = err emergency_stop
assert_clear unreadable = err emergency_stop
