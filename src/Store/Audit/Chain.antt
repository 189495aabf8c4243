-- ===== src/Store/Audit/Chain.antt =====
-- What `verify_audit` accepts: the walk along the rows, and what a checkpoint pins down.
use aisecure.Prelude.{
  Among, ℕ, suc, ◌+◌, ◌≡◌, refl, sym, ap, ◌∙◌, ◌⊎◌, String, List, [], ◌∷◌, ◌++◌, Option, none, some,
  Bool, true, false, ◌&&◌, arith, eqb, last?, length, eq_iff, Bool-cases, inl, inr,
}
use mathlib.Core.Path.{ap₂, subst}
use aisecure.Platform.{Platform}
use aisecure.Store.State.{AuditRow, Store}
use aisecure.Store.Audit.{
  Walk, walk_start, seen_at, same_text, next_seq, last_mac, row_mac, row_valid, walk_row, walk,
  verify_audit,
}

and_right : (a b : Bool) → (a && b) ≡ true → b ≡ true
and_right true b h = h
and_right false b h = cc

-- a verdict against a checkpoint
pub anchored_parts :
    (v : Bool) (o : Option String) (tip : String)
    → (v && same_text o tip) ≡ true
    → (v ≡ true) × (o ≡ some tip)
anchored_parts v none tip h = ground arith
anchored_parts v (some mac) tip h = ground (arith, eq_iff mac tip)

module _ (os : Platform) (self : Store) where
  abbrev pub IsValid : List AuditRow → Type 0
  IsValid rows = (walk os self rows walk_start).valid ≡ true

  pub walk-append :
      (xs ys : List AuditRow) (w : Walk)
      → walk os self (xs ++ ys) w ≡ walk os self ys (walk os self xs w)
  unfolding walk
  walk-append [] ys w = refl
  walk-append (x ∷ xs) ys w = walk-append xs ys (walk_row os self w x)

  -- a walk that ends valid began valid
  pub valid_start :
      (rows : List AuditRow) (w : Walk) → (walk os self rows w).valid ≡ true → w.valid ≡ true
  unfolding walk walk_row
  valid_start [] w h = h
  valid_start (r ∷ rows) w h = ground (arith, valid_start rows (walk_row os self w r) h)

  pub walk_index :
      (rows : List AuditRow) (w : Walk) → (walk os self rows w).index ≡ length rows + w.index
  unfolding walk walk_row
  walk_index [] w = omega arith
  walk_index (r ∷ rows) w = omega (arith, walk_index rows (walk_row os self w r))

  -- what the test of one row says
  pub record Fits (index : ℕ) (previous : String) (r : AuditRow) : Type 0 where
    pub numbered : r.seq ≡ index
    pub linked : r.prev ≡ previous
    pub signed : row_mac os self r.seq r.at r.action r.payload r.prev ≡ r.mac

  pub row-Fits :
      (index : ℕ) (previous : String) (r : AuditRow)
      → row_valid os self index previous r ≡ true
      → Fits index previous r
  unfolding row_valid
  row-Fits index previous r h = ground (
    arith,
    eq_iff r.prev previous,
    eq_iff (row_mac os self r.seq r.at r.action r.payload r.prev) r.mac,
  )

  -- the last row carries the number and the MAC at which the walk stands
  last_row :
      (rows : List AuditRow) (w : Walk) (r : AuditRow)
      → (walk os self rows (walk_row os self w r)).valid ≡ true
      → (next_seq (last? (r ∷ rows)) ≡ (walk os self rows (walk_row os self w r)).index + 1)
        × (last_mac (last? (r ∷ rows)) ≡ (walk os self rows (walk_row os self w r)).previous)
  unfolding walk walk_row
  last_row [] w r h = (ground (arith, row-Fits (suc w.index) w.previous r), refl)
  last_row (r' ∷ rows) w r h = last_row rows (walk_row os self w r) r' h

  pub valid_last :
      (rows : List AuditRow)
      → IsValid rows
      → (next_seq (last? rows) ≡ (walk os self rows walk_start).index + 1)
        × (last_mac (last? rows) ≡ (walk os self rows walk_start).previous)
  unfolding walk
  valid_last [] h = (refl, refl)
  valid_last (r ∷ rows) h = last_row rows walk_start r h

  -- the first row of a valid walk passed its test
  pub head-Fits :
      (rows : List AuditRow) (w : Walk) (r : AuditRow)
      → (walk os self rows (walk_row os self w r)).valid ≡ true
      → Fits (suc w.index) w.previous r
  unfolding walk_row
  head-Fits rows w r h =
      row-Fits (suc w.index) w.previous r
        (and_right _ _ (valid_start rows (walk_row os self w r) h))

  pub previous_row :
      (v w : Walk) (x y : AuditRow)
      → (walk_row os self v x).previous ≡ (walk_row os self w y).previous
      → x.mac ≡ y.mac
  unfolding walk_row
  previous_row v w x y e = e

  pub IsValid-prefix : (xs ys : List AuditRow) → IsValid (xs ++ ys) → IsValid xs
  IsValid-prefix xs ys h = valid_start ys (walk os self xs walk_start) (rw walk-append at h)

  -- an entry of `seen` is the MAC at which a part of the walk stood
  seen_split :
      (rows : List AuditRow) (w : Walk) (n : ℕ) (tip : String)
      → seen_at n (walk os self rows w).seen ≡ some tip
      → (seen_at n w.seen ≡ some tip)
        ⊎ ((xs ys : List AuditRow) × (rows ≡ xs ++ ys)
            × (length xs + w.index ≡ n)
            × ((walk os self xs w).previous ≡ tip))
  unfolding walk walk_row
  seen_split [] w n tip h = inl h
  seen_split (r ∷ rows) w n tip h = elim (seen_split rows (walk_row os self w r) n tip h) [
    | inl e ↦ elim (Bool-cases (eqb (suc w.index) n)) [
      | inl here ↦ inr (r ∷ [], rows, refl, ground arith, ground arith)
      | inr other ↦ inl (ground arith)
    ]
    | inr (xs, ys, e, l, p) ↦ inr (r ∷ xs, ys, ap (◌∷◌ r) e, omega arith, p)
  ]

  pub seen_start :
      (rows : List AuditRow) (n : ℕ) (tip : String)
      → seen_at n (walk os self rows walk_start).seen ≡ some tip
      → (xs ys : List AuditRow) × (rows ≡ xs ++ ys)
        × (length xs ≡ n)
        × ((walk os self xs walk_start).previous ≡ tip)
  unfolding walk
  seen_start rows n tip h = elim (seen_split rows walk_start n tip h) [
    | inl e ↦ ([], rows, refl, ground arith, ground arith)
    | inr (xs, ys, e, l, p) ↦ (xs, ys, e, omega arith, p)
  ]

-- The MAC tells the rows of two tables apart: a row of the one and a row of the other that have one
-- MAC have the same fields.
abbrev pub Unforgeable : Platform → Store → List AuditRow → List AuditRow → Type 0
Unforgeable os self xs ys =
    (r r' : AuditRow)
    → Among r xs
    → Among r' ys
    → row_mac os self r.seq r.at r.action r.payload r.prev
      ≡ row_mac os self r'.seq r'.at r'.action r'.payload r'.prev
    → (r.seq ≡ r'.seq)
      × (r.at ≡ r'.at)
      × (r.action ≡ r'.action)
      × (r.payload ≡ r'.payload)
      × (r.prev ≡ r'.prev)

-- the items of the first of two lists are items of both together
Among-append : {A : Type 0} (x : A) (xs ys : List A) → Among x xs → Among x (xs ++ ys)
Among-append x [] ys m = absurd m
Among-append x (z ∷ xs) ys (inl e) = inl e
Among-append x (z ∷ xs) ys (inr m) = inr (Among-append x xs ys m)

module _ (os : Platform) (self : Store) where
  same_rows :
      {i j : ℕ} {p q : String} (r r' : AuditRow) (xs ys : List AuditRow)
      → Unforgeable os self (r ∷ xs) (r' ∷ ys)
      → Fits os self i p r
      → Fits os self j q r'
      → r.mac ≡ r'.mac
      → (r ≡ r') × (p ≡ q)
  same_rows r r' xs ys unforgeable f g e =
      let (seq, at, action, payload, prev) =
        unforgeable r r' (inl refl) (inl refl) (f.signed ∙ e ∙ sym g.signed) in
      (cc, cc)

  -- two walks of one length that end at one MAC went through the same rows
  same_walks :
      (xs ys : List AuditRow) (v w : Walk)
      → Unforgeable os self xs ys
      → length xs ≡ length ys
      → (walk os self xs v).valid ≡ true
      → (walk os self ys w).valid ≡ true
      → (walk os self xs v).previous ≡ (walk os self ys w).previous
      → (xs ≡ ys) × (v.previous ≡ w.previous)
  unfolding walk
  same_walks [] [] v w u l a b e = (refl, e)
  same_walks [] (y ∷ ys) v w u l a b e = absurd (omega arith)
  same_walks (x ∷ xs) [] v w u l a b e = absurd (omega arith)
  same_walks (x ∷ xs) (y ∷ ys) v w u l a b e =
      let (rest, macs) =
        same_walks xs ys (walk_row os self v x) (walk_row os self w y)
          (λ r r' m m'. u r r' (inr m) (inr m')) (omega arith) a b e in
      let (first, links) =
        same_rows x y xs ys u (head-Fits os self xs v x a) (head-Fits os self ys w y b)
          (previous_row os self v w x y macs) in
      (ap₂ (◌∷◌) first rest, links)

  -- A checkpoint of a valid chain, its length and its last MAC, pins the chain down: a later table
  -- that verifies against the checkpoint begins with exactly the rows of then, none of them
  -- changed, moved or cut off. The MAC is taken to tell the rows of the two tables apart.
  pub anchor_pins :
      (old rows : List AuditRow)
      → Unforgeable os self rows old
      → IsValid os self old
      → (verify_audit os self
          (some (record {
            count = (verify_audit os self none old).count;
            tip = (verify_audit os self none old).tip;
          }))
          rows).valid
        ≡ true
      → (later : List AuditRow) × (rows ≡ old ++ later)
  unfolding verify_audit
  anchor_pins old rows unforgeable valid h =
      let (chain, seen) = anchored_parts _ _ _ h in
      let (xs, ys, split, count, tip) = seen_start os self rows (length old) _ seen in
      let whole : IsValid os self xs =
        IsValid-prefix os self xs ys (subst (IsValid os self) split chain) in
      let (same, _) =
        same_walks xs old walk_start walk_start
          (λ r r' m m'. unforgeable r r' (subst (Among r) (sym split) (Among-append r xs ys m)) m')
          count whole valid tip in
      (ys, split ∙ ap (λ (zs : List AuditRow). zs ++ ys) same)
