-- ===== src/Tests/Toy.antt =====
-- A platform that runs: its MAC is its message, its JSON texts of audit rows are quoted fields,
-- its cipher prefixes a byte, and its base64 counts in unary.
use Prim.Native.Char.{Char, char, code, IsScalar, IsLt}
use Prim.Native.Nat.{Ordering, compare}
use Prim.Native.String.{[], ◌∷◌}
use mathlib.Core.List as L
use mathlib.Core.List.{List}
use text.Mathlib.TextEquality.{IsScalar-prop}
use aisecure.Prelude.{
  Bool, true, ℕ, zero, suc, ◌+◌, ◌≡◌, refl, ap, String, Option, none, some, eqb, arith,
  if◌then◌else◌,
}
use aisecure.Json.{Value, int, pos, str, arr, obj, end, nil, cons}
use aisecure.Cipher.Roundtrip.{Faithful}
use aisecure.Store.State.{Store, AuditRow}
use aisecure.Store.Audit.{row_mac}
use aisecure.Store.Audit.Chain.{Unforgeable}
use aisecure.Store.Integrity.{Dependable}
use aisecure.Rules.{RuleConfig}
use aisecure.Text.{text_length}
use aisecure.Document.{Document}
use aisecure.Platform.{Platform, Bytes}

-- a character from its number
abbrev BothLt : Ordering → Ordering → Type 0
BothLt Ordering.lt o = IsLt o
BothLt Ordering.eq _ = ⊥
BothLt Ordering.gt _ = ⊥

abbrev Scalar : Ordering → Ordering → Ordering → Type 0
Scalar Ordering.lt _ _ = Unit
Scalar Ordering.eq o p = BothLt o p
Scalar Ordering.gt o p = BothLt o p

IsLt_dec : (o : Ordering) → Dec (IsLt o)
IsLt_dec Ordering.lt = yes tt
IsLt_dec Ordering.eq = no (λ h. h)
IsLt_dec Ordering.gt = no (λ h. h)

both_dec : (o p : Ordering) → Dec (BothLt o p)
both_dec Ordering.lt p = IsLt_dec p
both_dec Ordering.eq p = no (λ h. h)
both_dec Ordering.gt p = no (λ h. h)

scalar_dec : (o p q : Ordering) → Dec (Scalar o p q)
scalar_dec Ordering.lt p q = yes tt
scalar_dec Ordering.eq p q = both_dec p q
scalar_dec Ordering.gt p q = both_dec p q

IsScalar_dec : (n : ℕ) → Dec (IsScalar n)
IsScalar_dec n = scalar_dec (compare n 55296) (compare 57343 n) (compare n 1114112)

char_if : (n : ℕ) → Dec (IsScalar n) → Option Char
char_if n (yes p) = some (char n p)
char_if n (no q) = none

char_if-code : (n : ℕ) (p : IsScalar n) (d : Dec (IsScalar n)) → char_if n d ≡ some (char n p)
unfolding char_if
char_if-code n p (yes q) = λ i. some (char n (IsScalar-prop n q p i))
char_if-code n p (no q) = absurd (q p)

abbrev pub encode : String → Bytes
encode [] = L.[]
encode (c ∷ s) = L.◌∷◌ (code c) (encode s)

joined : Option Char → Option String → Option String
joined (some c) (some s) = some (c ∷ s)
joined _ _ = none

unfoldable pub decode : Bytes → Option String
unfolding joined char_if IsScalar_dec scalar_dec both_dec IsLt_dec
decode L.[] = some []
decode (L.◌∷◌ n bs) = joined (char_if n (IsScalar_dec n)) (decode bs)

decode-encode : (s : String) → decode (encode s) ≡ some s
unfolding decode
decode-encode [] = refl
decode-encode (char n p ∷ s) = rw (char_if-code n p (IsScalar_dec n)) (rw (decode-encode s))

-- numbers in unary
abbrev mark : Char
mark = char 49 tt

abbrev stop : Char
stop = char 48 tt

abbrev first_code : String → ℕ
first_code [] = 0
first_code (c ∷ s) = code c

stop_first : code stop ≡ code mark → ⊥
stop_first h = omega arith

mark_first : code mark ≡ code stop → ⊥
mark_first h = omega arith

unfoldable pub push : ℕ → String → String
push zero s = stop ∷ s
push (suc n) s = mark ∷ push n s

unfoldable pub unary : Bytes → String
unfolding push
unary L.[] = []
unary (L.◌∷◌ n bs) = push n (unary bs)

unfoldable pub count : String → ℕ → Bytes
count [] n = L.[]
count (c ∷ s) n =
    let more = count s (suc n) in
    let next = count s 0 in if eqb (code c) 49 then more else L.◌∷◌ n next

count-push : (k n : ℕ) (s : String) → count (push k s) n ≡ L.◌∷◌ (k + n) (count s 0)
unfolding count push
count-push zero n s = ground arith
count-push (suc k) n s = ground (arith, count-push k (suc n) s)

count-unary : (bs : Bytes) → count (unary bs) 0 ≡ bs
unfolding unary count
count-unary L.[] = refl
count-unary (L.◌∷◌ n bs) = ground (arith, count-push n 0 (unary bs), count-unary bs)

-- texts in quotes: each character behind a mark
unfoldable pub quote : String → String → String
quote [] rest = stop ∷ rest
quote (c ∷ s) rest = mark ∷ c ∷ quote s rest

quote_inj : (s t r r' : String) → quote s r ≡ quote t r' → (s ≡ t) × (r ≡ r')
unfolding quote
quote_inj [] [] r r' h = (refl, cc)
quote_inj [] (d ∷ t) r r' h = absurd (stop_first (ap first_code h))
quote_inj (c ∷ s) [] r r' h = absurd (mark_first (ap first_code h))
quote_inj (c ∷ s) (d ∷ t) r r' h = let (p, q) = quote_inj s t r r' (cc) in (cc, q)

push_inj : (n m : ℕ) (r r' : String) → push n r ≡ push m r' → (n ≡ m) × (r ≡ r')
unfolding push
push_inj zero zero r r' h = (refl, cc)
push_inj zero (suc m) r r' h = absurd (stop_first (ap first_code h))
push_inj (suc n) zero r r' h = absurd (mark_first (ap first_code h))
push_inj (suc n) (suc m) r r' h = let (p, q) = push_inj n m r r' (cc) in (ap suc p, q)

abbrev pub dumps : Value → String
dumps (arr (cons (int (pos n)) (cons (str a) (cons (str b) (cons (str c) (cons (str d) nil)))))) =
    push n (quote a (quote b (quote c (quote d []))))
dumps (str s) = s
dumps _ = []

unfoldable pub replicate : ℕ → Bytes
replicate zero = L.[]
replicate (suc n) = L.◌∷◌ 0 (replicate n)

unfoldable pub tail : Bytes → Bytes
tail L.[] = L.[]
tail (L.◌∷◌ b bs) = bs

module _ (document : Document) where
  abbrev pub toy : Platform
  toy = record {
    sha256 = λ s. s;
    hmac = λ k s. s;
    hmac_digest = λ k s. k;
    dumps = dumps;
    loads = λ s. some (obj end);
    dumps_document = λ d. "d";
    loads_document = λ s. some document;
    isoformat = λ t. "t";
    fromisoformat = λ s. some 1000000;
    clock = λ n. n;
    unix_time = λ n. n;
    token_hex = λ n k. push n "";
    urandom = λ n k. replicate k;
    aes_encrypt = λ k n p a. L.◌∷◌ 0 p;
    aes_decrypt = λ k n c a. some (tail c);
    decimal = λ n. push n "";
    b64encode = unary;
    b64decode = λ s. some (count s 0);
    urlsafe_b64decode = λ s. some (replicate (text_length s));
    ed25519 = λ k s m. true;
    utf8 = encode;
    from_utf8 = decode;
  }

  abbrev pub self_of : RuleConfig → Bool → Store
  self_of config encrypted = record { config = config; master = L.[]; encrypted = encrypted }

  pub toy-Faithful : (key : Bytes) → Faithful toy key
  unfolding replicate tail
  toy-Faithful key = record {
    nonce_length = λ draw. refl;
    decrypts = λ nonce plain aad. refl;
    tagged = λ nonce plain aad. omega arith;
    decodes = λ bytes. ap some (count-unary bytes);
    reads = decode-encode;
  }

  pub toy-Dependable : (self : Store) → Dependable toy self
  toy-Dependable self = record { cipher = toy-Faithful self.master; parses = λ fs. (end, refl) }

  pub toy-Unforgeable : (self : Store) (xs ys : List AuditRow) → Unforgeable toy self xs ys
  unfolding row_mac
  toy-Unforgeable self xs ys r r' m m' h =
      let (seq, h1) = push_inj r.seq r'.seq _ _ h in
      let (at, h2) = quote_inj r.at r'.at _ _ h1 in
      let (action, h3) = quote_inj r.action r'.action _ _ h2 in
      let (payload, h4) = quote_inj r.payload r'.payload _ _ h3 in
      let (prev, _) = quote_inj r.prev r'.prev _ _ h4 in (seq, at, action, payload, prev)
