-- ===== src/Exec/Ensures.antt =====
-- What holds of the state when a method has returned, whatever the state was before.
use aisecure.Prelude.{◌≡◌, refl, Bool, true, false}
use aisecure.Result.{Result, Code, ok, err, require}
use aisecure.Exec.{Exec, lift, reads, continue, ◌>>=◌}
use aisecure.Exec.Keeps.{Keeps}

pub record Ensures {S A : Type 0} (R : S → Type 0) (m : Exec S A) : Type 0 where
  pub at : (s : S) (a : A) → (m s).0 ≡ ok a → R (m s).1

module _ {S A B : Type 0} {R : S → Type 0} where
  ensures_continue :
      (f : A → Exec S B) (r : Result A) (t : S) (b : B)
      → ((a : A) → Ensures R (f a))
      → (continue r f t).0 ≡ ok b
      → R (continue r f t).1
  ensures_continue f (ok a) t b last h = (last a).at t b h
  ensures_continue f (err c) t b last h = cc

  -- the rest of a method ensures it
  pub Ensures-later :
      (m : Exec S A) (f : A → Exec S B) → ((a : A) → Ensures R (f a)) → Ensures R (m >>= f)
  unfolding ◌>>=◌
  Ensures-later m f last = record { at = λ s b h. ensures_continue f (m s).0 (m s).1 b last h }

  keeps_continue :
      (f : A → Exec S B) (r : Result A) (t : S) (b : B)
      → ((a : A) → Keeps R (f a))
      → ((a : A) → r ≡ ok a → R t)
      → (continue r f t).0 ≡ ok b
      → R (continue r f t).1
  keeps_continue f (ok a) t b keeps first h = (keeps a).at t (first a refl)
  keeps_continue f (err c) t b keeps first h = cc

  -- a first step ensures it, and the rest keeps it
  pub Ensures-now :
      (m : Exec S A) (f : A → Exec S B)
      → Ensures R m
      → ((a : A) → Keeps R (f a))
      → Ensures R (m >>= f)
  unfolding ◌>>=◌
  Ensures-now m f first keeps = record {
    at = λ s b h. keeps_continue f (m s).0 (m s).1 b keeps (first.at s) h;
  }

module _ {S A B : Type 0} where
  continue-ok :
      (f : A → Exec S B) (r : Result A) (t : S) (b : B)
      → (continue r f t).0 ≡ ok b
      → (a : A) × (r ≡ ok a) × ((f a t).0 ≡ ok b) × ((continue r f t).1 ≡ (f a t).1)
  continue-ok f (ok a) t b h = (a, refl, h, refl)
  continue-ok f (err c) t b h = cc

  -- a method that returned ran its first step, which returned, and then the rest
  pub bind-ok :
      (m : Exec S A) (f : A → Exec S B) (s : S) (b : B)
      → ((m >>= f) s).0 ≡ ok b
      → (a : A) × ((m s).0 ≡ ok a) × ((f a (m s).1).0 ≡ ok b) × (((m >>= f) s).1 ≡ (f a (m s).1).1)
  unfolding ◌>>=◌
  bind-ok m f s b h = continue-ok f (m s).0 (m s).1 b h

  -- a step that does not touch the state
  pub lift-ok :
      (r : Result A) (f : A → Exec S B) (s : S) (b : B)
      → ((lift r >>= f) s).0 ≡ ok b
      → (a : A) × (r ≡ ok a) × ((f a s).0 ≡ ok b) × (((lift r >>= f) s).1 ≡ (f a s).1)
  unfolding ◌>>=◌
  lift-ok r f s b h = continue-ok f r s b h

  pub reads-ok :
      (g : S → Result A) (f : A → Exec S B) (s : S) (b : B)
      → ((reads g >>= f) s).0 ≡ ok b
      → (a : A) × (g s ≡ ok a) × ((f a s).0 ≡ ok b) × (((reads g >>= f) s).1 ≡ (f a s).1)
  unfolding ◌>>=◌
  reads-ok g f s b h = continue-ok f (g s) s b h

pub require-ok : (b : Bool) (c : Code) → require b c ≡ ok tt → b ≡ true
require-ok true c h = refl
require-ok false c h = cc

module _ {S A B : Type 0} where
  lifted :
      (r : Result A) (f : A → Exec S B) (s : S) (P : S → Type 0)
      → P s
      → ((a : A) → r ≡ ok a → P (f a s).1)
      → P (continue r f s).1
  lifted (ok a) f s P here next = next a refl
  lifted (err c) f s P here next = here

  -- a step that does not touch the state ends the method, or the rest runs
  pub lift-after :
      (r : Result A) (f : A → Exec S B) (s : S) (P : S → Type 0)
      → P s
      → ((a : A) → r ≡ ok a → P (f a s).1)
      → P ((lift r >>= f) s).1
  unfolding ◌>>=◌
  lift-after r f s P here next = lifted r f s P here next

  bound :
      (r : Result A) (t : S) (f : A → Exec S B) (P : S → Type 0)
      → ((c : Code) → r ≡ err c → P t)
      → ((a : A) → r ≡ ok a → P (f a t).1)
      → P (continue r f t).1
  bound (ok a) t f P failed next = next a refl
  bound (err c) t f P failed next = failed c refl

  -- a first step raises, or the rest runs
  pub bind-after :
      (m : Exec S A) (f : A → Exec S B) (s : S) (P : S → Type 0)
      → ((c : Code) → (m s).0 ≡ err c → P (m s).1)
      → ((a : A) → (m s).0 ≡ ok a → P (f a (m s).1).1)
      → P ((m >>= f) s).1
  unfolding ◌>>=◌
  bind-after m f s P failed next = bound (m s).0 (m s).1 f P failed next

  settled_state : (r : Result A) (t : S) (g : A → Result B) → (continue r (λ a. lift (g a)) t).1 ≡ t
  unfolding lift
  settled_state (ok a) t g = refl
  settled_state (err c) t g = refl

  -- what follows a step does not touch the state
  pub bind-state :
      (m : Exec S A) (g : A → Result B) (s : S) → ((m >>= λ a. lift (g a)) s).1 ≡ (m s).1
  unfolding ◌>>=◌
  bind-state m g s = settled_state (m s).0 (m s).1 g
