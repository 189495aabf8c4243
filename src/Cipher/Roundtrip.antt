-- ===== src/Cipher/Roundtrip.antt =====
-- What is encrypted is decrypted again.
use aisecure.Prelude.{
  ℕ, ◌<◌, ◌≡◌, refl, String, [], ◌∷◌, ◌++◌, some, arith, length, length-append, true, ltb, lt→ltb,
  eqb_refl,
}
use Prim.Native.String.{◌++◌ as text_append}
use Prim.Native.String.append
use aisecure.Result.{ok}
use aisecure.Text.{strip_prefix}
use aisecure.Platform.{Platform, Bytes}
use aisecure.Cipher.{nonce_bytes, envelope_prefix, take, drop, encrypt, decrypt}

take-append : (xs ys : Bytes) → take (length xs) (xs ++ ys) ≡ xs
unfolding take
take-append [] ys = refl
take-append (x ∷ xs) ys = λ i. x ∷ take-append xs ys i

drop-append : (xs ys : Bytes) → drop (length xs) (xs ++ ys) ≡ ys
unfolding drop
drop-append [] ys = refl
drop-append (x ∷ xs) ys = drop-append xs ys

take_of_length : (n : ℕ) (xs ys : Bytes) → length xs ≡ n → take n (xs ++ ys) ≡ xs
take_of_length n xs ys h = rw (← h) (take-append xs ys)

drop_of_length : (n : ℕ) (xs ys : Bytes) → length xs ≡ n → drop n (xs ++ ys) ≡ ys
drop_of_length n xs ys h = rw (← h) (drop-append xs ys)

strip_prefix-append : (p s : String) → strip_prefix p (text_append p s) ≡ some s
unfolding strip_prefix
strip_prefix-append String.[] s = rw append.nil
strip_prefix-append (String.◌∷◌ c p) s = rw append.cons (rw eqb_refl (strip_prefix-append p s))

-- What AES-GCM, base64, UTF-8 and `os.urandom` are documented to do.
pub record Faithful (os : Platform) (key : Bytes) : Type 0 where
  pub nonce_length : (draw : ℕ) → length (os.urandom draw nonce_bytes) ≡ nonce_bytes
  pub decrypts :
      (nonce plain aad : Bytes)
      → os.aes_decrypt key nonce (os.aes_encrypt key nonce plain aad) aad ≡ some plain
  pub tagged : (nonce plain aad : Bytes) → 0 < length (os.aes_encrypt key nonce plain aad)
  pub decodes : (bytes : Bytes) → os.b64decode (os.b64encode bytes) ≡ some bytes
  pub reads : (text : String) → os.from_utf8 (os.utf8 text) ≡ some text

-- Decryption of an envelope under the same key and associated data gives back the text, whatever
-- the nonce was, where AES-GCM, base64 and UTF-8 give back what they were given.
pub decrypt-encrypt :
    (os : Platform) (key : Bytes) (draw : ℕ) (text aad : String)
    → Faithful os key
    → decrypt os key (encrypt os key draw text aad) aad ≡ ok text
unfolding encrypt decrypt strip_prefix
decrypt-encrypt os key draw text aad f =
    let nonce = os.urandom draw nonce_bytes in
    let box = os.aes_encrypt key nonce (os.utf8 text) (os.utf8 aad) in
    let cut : take nonce_bytes (nonce ++ box) ≡ nonce =
      take_of_length nonce_bytes nonce box (f.nonce_length draw) in
    let rest : drop nonce_bytes (nonce ++ box) ≡ box =
      drop_of_length nonce_bytes nonce box (f.nonce_length draw) in
    let long : ltb nonce_bytes (length (nonce ++ box)) ≡ true = lt→ltb _ _ (
      omega (
        arith,
        length-append nonce box,
        f.nonce_length draw,
        f.tagged nonce (os.utf8 text) (os.utf8 aad),
      )) in
    rw (strip_prefix-append envelope_prefix (os.b64encode (nonce ++ box))) (
      rw (f.decodes (nonce ++ box)) (
        rw long (
          rw cut
            (rw rest (rw (f.decrypts nonce (os.utf8 text) (os.utf8 aad)) (rw (f.reads text)))))))
