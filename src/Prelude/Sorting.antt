-- ===== src/Prelude/Sorting.antt =====
-- What `sort_by` keeps: the length, a property of each element, and that keys are distinct.
use Prim.Native.Nat.{suc}
use Prim.Native.String.{String}
use mathlib.Core.Path.{◌≡◌, refl, ap, ◌∙◌}
use mathlib.Core.Logic.{◌⊎◌, inl, inr}
use mathlib.Core.Bool.{Bool, false, ◌||◌}
use mathlib.Core.List.{List, [], ◌∷◌, map}
use native.Mathlib.Omega.{arith}
use text.Mathlib.Text.{◌==◌}
use text.Mathlib.TextEquality.{eq_iff}
use aisecure.Prelude.Tests.{Bool-cases}
use aisecure.Prelude.Lists.{length, mem, insert_by, sort_by}

-- a property of every element
abbrev pub All {ℓ κ} : {A : Type ℓ} → (A → Type κ) → List A → Type κ
All P [] = Unit
All P (x ∷ xs) = P x × All P xs

-- x is an item of the list
abbrev pub Among : {A : Type 0} → A → List A → Type 0
Among x [] = ⊥
Among x (y ∷ ys) = (x ≡ y) ⊎ Among x ys

pub All-imp {ℓ κ} :
    {A : Type ℓ} {P Q : A → Type κ} (xs : List A) → ((x : A) → P x → Q x) → All P xs → All Q xs
All-imp [] h ps = tt
All-imp (x ∷ xs) h (p, ps) = (h x p, All-imp xs h ps)

-- no text twice
abbrev pub Distinct : List String → Type 0
Distinct [] = Unit
Distinct (x ∷ xs) = (mem x xs ≡ false) × Distinct xs

module _ {A : Type 0} (before : A → A → Bool) where
  module _ (P : A → Type 0) where
    All-insert_by : (x : A) (xs : List A) → P x → All P xs → All P (insert_by before x xs)
    All-insert_by x [] p ps = (p, tt)
    All-insert_by x (y ∷ xs) p (q, qs) = elim (Bool-cases (before y x)) [
      | inl later ↦ rw later (q, All-insert_by x xs p qs)
      | inr here ↦ rw here (p, (q, qs))
    ]

    pub All-sort_by : (xs : List A) → All P xs → All P (sort_by before xs)
    All-sort_by [] ps = tt
    All-sort_by (x ∷ xs) (p, ps) = All-insert_by x (sort_by before xs) p (All-sort_by xs ps)

  length-insert_by : (x : A) (xs : List A) → length (insert_by before x xs) ≡ suc (length xs)
  length-insert_by x [] = refl
  length-insert_by x (y ∷ xs) = ground (arith, length-insert_by x xs)

  pub length-sort_by : (xs : List A) → length (sort_by before xs) ≡ length xs
  length-sort_by [] = refl
  length-sort_by (x ∷ xs) = length-insert_by x (sort_by before xs) ∙ ap suc (length-sort_by xs)

  module _ (f : A → String) where
    mem-insert_by :
        (k : String) (x : A) (xs : List A)
        → mem k (map f (insert_by before x xs)) ≡ (f x == k || mem k (map f xs))
    mem-insert_by k x [] = refl
    mem-insert_by k x (y ∷ xs) = ground (arith, mem-insert_by k x xs)

    pub mem-sort_by :
        (k : String) (xs : List A) → mem k (map f (sort_by before xs)) ≡ mem k (map f xs)
    mem-sort_by k [] = refl
    mem-sort_by k (x ∷ xs) =
        mem-insert_by k x (sort_by before xs) ∙ ap (λ b. f x == k || b) (mem-sort_by k xs)

    Distinct-insert_by :
        (x : A) (xs : List A)
        → mem (f x) (map f xs) ≡ false
        → Distinct (map f xs)
        → Distinct (map f (insert_by before x xs))
    Distinct-insert_by x [] new d = (refl, tt)
    Distinct-insert_by x (y ∷ xs) new (e, d) = elim (Bool-cases (before y x)) [
      | inl later ↦ rw later (
        ground (arith, mem-insert_by (f y) x xs, eq_iff (f x) (f y), eq_iff (f y) (f x)),
        Distinct-insert_by x xs (ground arith) d,
      )
      | inr here ↦ rw here (new, (e, d))
    ]

    pub Distinct-sort_by :
        (xs : List A) → Distinct (map f xs) → Distinct (map f (sort_by before xs))
    Distinct-sort_by [] d = tt
    Distinct-sort_by (x ∷ xs) (e, d) =
        Distinct-insert_by x (sort_by before xs) (mem-sort_by (f x) xs ∙ e) (Distinct-sort_by xs d)
