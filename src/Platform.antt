-- ===== src/Platform.antt =====
-- What the program takes from Python's libraries and the operating system: hashes, JSON texts,
-- ISO times, AES-GCM, base64, the clock and random bytes. The n-th reading of the clock and the
-- n-th draw of random bytes are functions of n, since each call answers anew.
use aisecure.Prelude.{ℕ, String, List, Option, Bool}
use aisecure.Json.{Value}
use aisecure.Document.{Document}

abbrev pub Bytes : Type 0
Bytes = List ℕ

pub record Platform : Type 0 where
  -- hashlib.sha256(text.encode()).hexdigest()
  pub sha256 : String → String
  -- hmac.new(key, text.encode(), hashlib.sha256).hexdigest(), and the same as bytes
  pub hmac : Bytes → String → String
  pub hmac_digest : Bytes → String → Bytes
  -- schema.canonical, which is `json.dumps` with sorted keys, and `json.loads`
  pub dumps : Value → String
  pub loads : String → Option Value
  -- the same at a normalised snapshot
  pub dumps_document : Document → String
  pub loads_document : String → Option Document
  -- datetime.isoformat(timespec="seconds") and datetime.fromisoformat, on microseconds in UTC
  pub isoformat : ℕ → String
  pub fromisoformat : String → Option ℕ
  pub clock : ℕ → ℕ
  -- int(time.time()), at the n-th reading
  pub unix_time : ℕ → ℕ
  pub token_hex : ℕ → ℕ → String
  pub urandom : ℕ → ℕ → Bytes
  -- AESGCM(key).encrypt(nonce, plaintext, associated data), and decrypt; `none` is InvalidTag
  pub aes_encrypt : Bytes → Bytes → Bytes → Bytes → Bytes
  pub aes_decrypt : Bytes → Bytes → Bytes → Bytes → Option Bytes
  -- str(n) of an integer
  pub decimal : ℕ → String
  pub b64encode : Bytes → String
  pub b64decode : String → Option Bytes
  -- base64.urlsafe_b64decode of a text in its alphabet, padded
  pub urlsafe_b64decode : String → Option Bytes
  -- Ed25519PublicKey.verify of a signature of a text
  pub ed25519 : Bytes → Bytes → String → Bool
  pub utf8 : String → Bytes
  pub from_utf8 : Bytes → Option String
