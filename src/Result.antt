-- ===== src/Result.antt =====
-- The exception classes of the program, and functions that may raise one.
use aisecure.Prelude.{◌≡◌, refl, ◌⊎◌, inl, inr, Bool, true, false}

pub data Code : Type 0 where
  -- schema.ValidationError, store.ConflictError, store.IntegrityError
  validation conflict integrity : Code
  -- responder.ResponderError, safety.EmergencyStopError, storage.StorageCipherError
  responder emergency_stop cipher : Code
  -- gateway.GatewayError, gateway.DeliveryUnknown, preflight.InputError, preflight.GuardDenied
  gateway delivery_unknown input denied : Code
  -- sqlite3.IntegrityError: a row with this primary key is there
  database : Code
  -- audit_sink.AuditSinkError, control.common.ControlError
  audit_sink control : Code
  -- a built-in OverflowError, from a number that no float holds
  overflow : Code
  -- a built-in TypeError that no handler of the program turns into its own class
  type_error : Code

pub data Result {ℓ} (A : Type ℓ) : Type ℓ where
  ok : A → Result A
  err : Code → Result A

infixl 10 ◌>>=◌ ◌>>◌
abbrev pub ◌>>=◌ {ℓ κ} : {A : Type ℓ} {B : Type κ} → Result A → (A → Result B) → Result B
ok a >>= f = f a
err c >>= f = err c

abbrev pub ◌>>◌ {ℓ} : {B : Type ℓ} → Result (Unit {0}) → Result B → Result B
m >> k = m >>= λ _. k

-- `if not test: raise …`
abbrev pub require : Bool → Code → Result (Unit {0})
require true c = ok tt
require false c = err c

-- `if test: raise …`
abbrev pub refuse : Bool → Code → Result (Unit {0})
refuse true c = err c
refuse false c = ok tt

pub Result-cases {ℓ} :
    {A : Type ℓ} (r : Result A) → ((a : A) × (r ≡ ok a)) ⊎ ((c : Code) × (r ≡ err c))
Result-cases (ok a) = inl (a, refl)
Result-cases (err c) = inr (c, refl)

-- what a chain of steps that returned has been through
module _ {ℓ κ} {A : Type ℓ} {B : Type κ} where
  pub >>=-ok :
      (first : Result A) (next : A → Result B) (b : B)
      → (first >>= next) ≡ ok b
      → (a : A) × (first ≡ ok a) × (next a ≡ ok b)
  >>=-ok (ok a) next b h = (a, refl, h)
  >>=-ok (err c) next b h = cc

pub require_ok : (test : Bool) (c : Code) (u : Unit {0}) → require test c ≡ ok u → test ≡ true
require_ok true c u h = refl
require_ok false c u h = cc

pub refuse_ok : (test : Bool) (c : Code) (u : Unit {0}) → refuse test c ≡ ok u → test ≡ false
refuse_ok true c u h = cc
refuse_ok false c u h = refl

pub ok_value : {A : Type 0} (a b : A) → ok a ≡ ok b → a ≡ b
ok_value a b h = cc
