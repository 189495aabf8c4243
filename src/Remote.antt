-- ===== src/Remote.antt =====
-- What aisecure/responder.py and aisecure/audit_sink.py have in common: an address, as `urlsplit`
-- divides it, a deadline, and the reply to a request.
use aisecure.Prelude.{
  ℕ, ◌*◌, ◌^◌, String, Option, none, some, Bool, false, ◌&&◌, ◌||◌, not, ◌==◌, leb, ltb, eqb,
  if◌then◌else◌,
}
use aisecure.Json.{Value, Float, pos, finite, int, bool, float}
use aisecure.Rules.{one}

pub record Url : Type 0 where
  pub scheme : String
  pub hostname : Option String
  pub username : Option String
  pub password : Option String
  pub query : String
  pub fragment : String

-- the truth value of a text that may be missing
abbrev pub is_set : Option String → Bool
is_set none = false
is_set (some s) = not (s == "")

unfoldable pub is_local : Option String → Bool
is_local none = false
is_local (some host) = host == "127.0.0.1" || host == "::1" || host == "localhost"

-- `not hostname or username or password or query or fragment`
unfoldable pub has_extras : Url → Bool
has_extras url =
    not (is_set url.hostname)
    || is_set url.username
    || is_set url.password
    || not (url.query == "")
    || not (url.fragment == "")

-- `0.5 <= timeout <= 30`
unfoldable pub timeout_fits : Float → Bool
timeout_fits (finite (pos k)) = leb (2 ^ 1073) k && leb k (30 * one)
timeout_fits _ = false

-- what became of a request: the status, the number of bytes read and what `json.loads` made of
-- them, or the error
pub data Reply : Type 0 where
  replied : ℕ → ℕ → Option Value → Reply
  http_error unreachable redirected : Reply

-- `200 <= status < 300`
abbrev pub is_success : ℕ → Bool
is_success status = leb 200 status && ltb status 300

-- what `v == n` tests, of a natural number
unfoldable pub equals_number : ℕ → Option Value → Bool
equals_number n (some (int (pos m))) = eqb m n
equals_number n (some (bool b)) = eqb (if b then 1 else 0) n
equals_number n (some (float (finite (pos k)))) = eqb k (n * one)
equals_number n _ = false
