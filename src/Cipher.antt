-- ===== src/Cipher.antt =====
-- aisecure/storage.py: the AES-GCM envelope, with the cipher itself, base64 and UTF-8 taken from
-- the platform.
pub mod Roundtrip
use aisecure.Prelude.{ℕ, zero, suc, String, List, [], ◌∷◌, ◌++◌, Option, none, some, ltb, length}
use Prim.Native.String.{◌++◌ as text_append}
use aisecure.Result.{Result, ok, err, cipher, require, ◌>>=◌, ◌>>◌}
use aisecure.Text.{strip_prefix}
use aisecure.Platform.{Platform, Bytes}

abbrev pub nonce_bytes : ℕ
nonce_bytes = 12

abbrev pub envelope_prefix : String
envelope_prefix = "aesgcm:v1:"

-- `packed[:n]` and `packed[n:]`
unfoldable pub take : ℕ → Bytes → Bytes
take zero bs = []
take (suc n) [] = []
take (suc n) (b ∷ bs) = b ∷ take n bs

unfoldable pub drop : ℕ → Bytes → Bytes
drop zero bs = bs
drop (suc n) [] = []
drop (suc n) (b ∷ bs) = drop n bs

-- a step of `decrypt` that failed raises StorageCipherError
abbrev pub or_cipher {ℓ} : {A : Type ℓ} → Option A → Result A
or_cipher none = err cipher
or_cipher (some a) = ok a

module _ (os : Platform) where
  -- `StorageCipher.encrypt` at the `draw`-th draw of random bytes
  unfoldable pub encrypt : Bytes → ℕ → String → String → String
  encrypt key draw plaintext aad =
      let nonce = os.urandom draw nonce_bytes in
      text_append envelope_prefix
        (os.b64encode (nonce ++ os.aes_encrypt key nonce (os.utf8 plaintext) (os.utf8 aad)))

  unfoldable pub decrypt : Bytes → String → String → Result String
  decrypt key envelope aad = do
    rest ← or_cipher (strip_prefix envelope_prefix envelope)
    packed ← or_cipher (os.b64decode rest)
    require (ltb nonce_bytes (length packed)) cipher
    plain ←
        or_cipher
          (os.aes_decrypt key (take nonce_bytes packed) (drop nonce_bytes packed) (os.utf8 aad))
    or_cipher (os.from_utf8 plain)
