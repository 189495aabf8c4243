-- ===== src/Posture/Windows.antt =====
-- The sliding window of `dlp_findings` against its definition: all transfers of the last 24 hours.
use aisecure.Prelude.{
  ℕ, ◌+◌, ◌≤◌, ◌≡◌, refl, sym, ap, ◌∙◌, List, [], ◌∷◌, ◌++◌, Option, none, some, Bool, true, false,
  ltb, leb, length, keep, All, All-imp, arith, insert_by, sort_by, Bool-cases, inl, inr,
  if◌then◌else◌,
}
use mathlib.Core.Path.{subst}
use aisecure.Posture.Dlp.{Transfer, earlier, evict, first_window, window_finding, group_finding}

module _ {A : Type 0} where
  keep_whole : (p : A → Bool) (xs : List A) → All (λ x. p x ≡ true) xs → keep p xs ≡ xs
  keep_whole p [] h = refl
  keep_whole p (x ∷ xs) (e, h) = rw (e, keep_whole p xs h) refl

  keep-keep :
      (p q : A → Bool) (xs : List A)
      → ((x : A) → p x ≡ true → q x ≡ true)
      → keep p (keep q xs) ≡ keep p xs
  keep-keep p q [] h = refl
  keep-keep p q (x ∷ xs) h = elim (Bool-cases (q x)) [
    | inl yes_q ↦ rw (yes_q, keep-keep p q xs h) refl
    | inr no_q ↦
        let no_p : p x ≡ false = neither (p x) (q x) (h x) no_q in
        rw (no_q, no_p) (keep-keep p q xs h)
  ]
    where
      neither : (a b : Bool) → (a ≡ true → b ≡ true) → b ≡ false → a ≡ false
      neither true b h e = cc (h refl)
      neither false b h e = refl

  keep-snoc :
      (p : A → Bool) (xs : List A) (x : A)
      → p x ≡ true
      → keep p (xs ++ (x ∷ [])) ≡ keep p xs ++ (x ∷ [])
  keep-snoc p [] x e = rw e refl
  keep-snoc p (y ∷ ys) x e = elim (Bool-cases (p y)) [
    | inl taken ↦ rw taken (ap (λ zs. y ∷ zs) (keep-snoc p ys x e))
    | inr dropped ↦ rw dropped (keep-snoc p ys x e)
  ]

  All-keep : (P : A → Type 0) (p : A → Bool) (xs : List A) → All P xs → All P (keep p xs)
  All-keep P p [] h = tt
  All-keep P p (x ∷ xs) (e, h) = elim (Bool-cases (p x)) [
    | inl taken ↦ rw taken (e, All-keep P p xs h)
    | inr dropped ↦ rw dropped (All-keep P p xs h)
  ]

  All-prefix : (P : A → Type 0) (xs ys : List A) → All P (xs ++ ys) → All P xs
  All-prefix P [] ys h = tt
  All-prefix P (x ∷ xs) ys (e, h) = (e, All-prefix P xs ys h)

  snoc-append : (xs : List A) (y : A) (ys : List A) → (xs ++ (y ∷ [])) ++ ys ≡ xs ++ (y ∷ ys)
  snoc-append [] y ys = refl
  snoc-append (x ∷ xs) y ys = ap (λ zs. x ∷ zs) (snoc-append xs y ys)

-- at most 24 hours before
abbrev within : ℕ → Transfer → Bool
within now e = leb now (e.at + 86400)

abbrev Ascending : List Transfer → Type 0
Ascending [] = Unit
Ascending (x ∷ xs) = All (λ y. x.at ≤ y.at) xs × Ascending xs

Ascending-keep : (p : Transfer → Bool) (xs : List Transfer) → Ascending xs → Ascending (keep p xs)
Ascending-keep p [] h = tt
Ascending-keep p (x ∷ xs) (low, h) = elim (Bool-cases (p x)) [
  | inl taken ↦ rw taken (All-keep (λ y. x.at ≤ y.at) p xs low, Ascending-keep p xs h)
  | inr dropped ↦ rw dropped (Ascending-keep p xs h)
]

Ascending-prefix : (xs ys : List Transfer) → Ascending (xs ++ ys) → Ascending xs
Ascending-prefix [] ys h = tt
Ascending-prefix (x ∷ xs) ys (low, h) =
    (All-prefix (λ y. x.at ≤ y.at) xs ys low, Ascending-prefix xs ys h)

-- evicting from the front is keeping what lies within
evict-keep : (now : ℕ) (xs : List Transfer) → Ascending xs → evict now xs ≡ keep (within now) xs
unfolding evict
evict-keep now [] h = refl
evict-keep now (x ∷ xs) (low, h) = elim (Bool-cases (ltb (x.at + 86400) now)) [
  | inl old ↦ let out : within now x ≡ false = ground arith in rw (old, out) (evict-keep now xs h)
  | inr young ↦
      let kept : within now x ≡ true = ground arith in
      let rest =
        keep_whole (within now) xs (All-imp xs (λ y later. still x.at y.at young later) low) in
      rw (young, kept, rest) refl
]
  where
    still : (x y : ℕ) → ltb (x + 86400) now ≡ false → x ≤ y → leb now (y + 86400) ≡ true
    still x y young later = ground arith

-- the window by its definition, at each item in turn
unfoldable pub reference : List Transfer → List Transfer → Option (List Transfer)
reference past [] = none
reference past (e ∷ es) =
    let later = reference (past ++ (e ∷ [])) es in
    let window = keep (within e.at) (past ++ (e ∷ [])) in
    if leb 3 (length window) then some window else later

within_later : (t now : ℕ) → t ≤ now → (x : Transfer) → within now x ≡ true → within t x ≡ true
within_later t now h x e = ground arith

itself : (t : ℕ) (e : Transfer) → t ≤ e.at → within t e ≡ true
itself t e h = ground arith

one_window :
    (t : ℕ) (past : List Transfer) (e : Transfer) (es : List Transfer)
    → Ascending (past ++ (e ∷ es))
    → t ≤ e.at
    → evict e.at (keep (within t) past ++ (e ∷ [])) ≡ keep (within e.at) (past ++ (e ∷ []))
one_window t past e es sorted h =
    let so_far : Ascending (past ++ (e ∷ [])) =
      Ascending-prefix (past ++ (e ∷ [])) es
        (subst Ascending (sym (snoc-append past e es)) sorted) in
    ap (evict e.at) (sym (keep-snoc (within t) past e (itself t e h)))
    ∙ evict-keep e.at (keep (within t) (past ++ (e ∷ [])))
        (Ascending-keep (within t) (past ++ (e ∷ [])) so_far)
    ∙ keep-keep (within e.at) (within t) (past ++ (e ∷ [])) (within_later t e.at h)

later_than :
    (past : List Transfer) (e : Transfer) (es : List Transfer)
    → Ascending (past ++ (e ∷ es))
    → All (λ y. e.at ≤ y.at) es
later_than [] e es (low, h) = low
later_than (x ∷ xs) e es (low, h) = later_than xs e es h

first_window-reference_from :
    (t : ℕ) (past es : List Transfer)
    → Ascending (past ++ es)
    → All (λ y. t ≤ y.at) es
    → first_window (keep (within t) past) es ≡ reference past es
unfolding first_window reference
first_window-reference_from t past [] sorted h = refl
first_window-reference_from t past (e ∷ es) sorted (low, h) =
    let window = one_window t past e es sorted low in
    let rest =
      first_window-reference_from e.at (past ++ (e ∷ [])) es
        (subst Ascending (sym (snoc-append past e es)) sorted) (later_than past e es sorted) in
    rw (window, rest) refl

-- the stable sort by time
insert_before : (x y : ℕ) → ltb y x ≡ true → y ≤ x
insert_before x y h = ground arith

insert_after : (x y : ℕ) → ltb y x ≡ false → x ≤ y
insert_after x y h = ground arith

All-insert :
    (P : Transfer → Type 0) (x : Transfer) (xs : List Transfer)
    → P x
    → All P xs
    → All P (insert_by earlier x xs)
All-insert P x [] p ps = (p, tt)
All-insert P x (y ∷ ys) p (q, qs) = elim (Bool-cases (earlier y x)) [
  | inl before ↦ rw before (q, All-insert P x ys p qs)
  | inr here ↦ rw here (p, (q, qs))
]

Ascending-insert_by :
    (x : Transfer) (xs : List Transfer) → Ascending xs → Ascending (insert_by earlier x xs)
Ascending-insert_by x [] h = (tt, tt)
Ascending-insert_by x (y ∷ ys) (low, h) = elim (Bool-cases (earlier y x)) [
  | inl before ↦ rw before (
    All-insert (λ z. y.at ≤ z.at) x ys (insert_before x.at y.at before) low,
    Ascending-insert_by x ys h,
  )
  | inr here ↦
      let first = insert_after x.at y.at here in
      rw here ((first, All-imp ys (λ z later. through x.at y.at z.at first later) low), (low, h))
]
  where
    through : (a b c : ℕ) → a ≤ b → b ≤ c → a ≤ c
    through a b c h k = omega arith

Ascending-sort_by : (xs : List Transfer) → Ascending (sort_by earlier xs)
Ascending-sort_by [] = tt
Ascending-sort_by (x ∷ xs) = Ascending-insert_by x (sort_by earlier xs) (Ascending-sort_by xs)

from_zero : (xs : List Transfer) → All (λ y. 0 ≤ y.at) xs
from_zero [] = tt
from_zero (x ∷ xs) = (omega arith, from_zero xs)

-- The finding of `dlp_findings` on the transfers of one actor, which it computes with a window that
-- only moves forward, is that of the definition: sorted by time, the first transfer for which at
-- least three transfers up to it lie within the 24 hours before it, with all of these as evidence.
pub group_finding-reference :
    (items : List Transfer)
    → group_finding items ≡ window_finding (reference [] (sort_by earlier items))
unfolding group_finding
group_finding-reference items = ap window_finding (
    first_window-reference_from 0 [] (sort_by earlier items) (Ascending-sort_by items)
      (from_zero (sort_by earlier items)))
