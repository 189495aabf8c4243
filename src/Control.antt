-- ===== src/Control.antt =====
-- aisecure/control: the audit entries of the control service (audit.py), the registered firewall
-- rule (vpn.py) and the response to an approved proposal (response.py), with the shared checks of
-- common.py.
pub mod Entry
pub mod Device
pub mod Response
pub mod Signed
pub mod Guarded
use aisecure.Prelude.{
  ℕ, ◌+◌, String, List, [], Option, none, some, Bool, true, false, ◌&&◌, leb, eqb, length,
  if◌then◌else◌,
}
use Prim.Native.String.{◌++◌ as text_append}
use aisecure.Result.{Result, ok, err, control, require, ◌>>=◌}
use aisecure.Json.{Value, Fields, pos, int, str, obj}
use aisecure.Platform.{Platform, Bytes}
use aisecure.Schema.{is_id, object_keys}

-- an identifier of at most 96 characters
unfoldable pub ident : Value → Result String
ident (str s) = if is_id 95 s then ok s else err control
ident _ = err control

-- `integer`, for bounds that are not negative
unfoldable pub integer : ℕ → ℕ → Value → Result ℕ
integer low high (int (pos n)) = if leb low n && leb n high then ok n else err control
integer low high _ = err control

-- `integer(value, now - age, now + ahead)`, for a clock past the age
unfoldable pub recent : ℕ → ℕ → ℕ → Value → Result ℕ
recent now age ahead (int (pos n)) =
    if leb now (n + age) && leb n (now + ahead) then ok n else err control
recent now age ahead _ = err control

-- `type(value) is dict` and `set(value) == keys`
unfoldable pub exact_keys : List String → Value → Result Fields
exact_keys keys v = as_control (object_keys keys [] v)
  where
    as_control : Result Fields → Result Fields
    as_control (ok fs) = ok fs
    as_control (err c) = err control

module _ (os : Platform) where
  -- `opaque` of a text
  unfoldable pub opaque : Bytes → String → String → Result String
  opaque key kind value =
      if eqb (length key) 32
      then ok (os.hmac key (text_append kind (text_append "\0" value)))
      else err control
