-- ===== src/Exec/Keeps.antt =====
-- Invariants of methods, by one rule for each way to build a method.
use aisecure.Prelude.{Bool, true, false, if◌then◌else◌}
use aisecure.Result.{Result, ok, err}
use aisecure.Exec.{Exec, pure, lift, reads, continue, ◌>>=◌}

-- `m` leads from states with `P` to states with `P`, whether it returns or raises
pub record Keeps {S A : Type 0} (P : S → Type 0) (m : Exec S A) : Type 0 where
  pub at : (s : S) → P s → P (m s).1

module _ {S A : Type 0} {P : S → Type 0} where
  pub Keeps-pure : (result : A) → Keeps P (pure result)
  unfolding pure
  Keeps-pure result = record { at = λ start holds. holds }

  pub Keeps-lift : (r : Result A) → Keeps P (lift r)
  unfolding lift
  Keeps-lift r = record { at = λ s h. h }

  pub Keeps-reads : (f : S → Result A) → Keeps P (reads f)
  unfolding reads
  Keeps-reads f = record { at = λ s h. h }

  pub Keeps-if : (b : Bool) (m n : Exec S A) → Keeps P m → Keeps P n → Keeps P (if b then m else n)
  Keeps-if true m n km kn = km
  Keeps-if false m n km kn = kn

module _ {S A B : Type 0} {P : S → Type 0} where
  Keeps-continue :
      (f : A → Exec S B) (r : Result A) (s : S)
      → ((a : A) → Keeps P (f a))
      → P s
      → P (continue r f s).1
  Keeps-continue f (ok a) s kf h = (kf a).at s h
  Keeps-continue f (err c) s kf h = h

  pub Keeps-bind :
      (first : Exec S A) (next : A → Exec S B)
      → Keeps P first
      → ((x : A) → Keeps P (next x))
      → Keeps P (first >>= next)
  unfolding ◌>>=◌
  Keeps-bind first next k l = record {
    at = λ s h. Keeps-continue next (first s).0 (first s).1 l (k.at s h);
  }

pub ruleset keeps_rules = (Keeps-pure, Keeps-lift, Keeps-reads, Keeps-if, Keeps-bind)
