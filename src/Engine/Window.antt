-- ===== src/Engine/Window.antt =====
-- The sliding window of `analyze` (aisecure/engine.py): a deque of reads, a counter of their
-- files, and the window with most files so far.
use aisecure.Prelude.{
  ℕ, ◌+◌, ◌-◌, String, List, [], ◌∷◌, ◌++◌, Option, none, some, ltb, eqb, length, lookup, put,
  remove, text_eq, if◌then◌else◌,
}
use aisecure.Document.{FileAccess}

abbrev pub Counter : Type 0
Counter = List (String × ℕ)

pub record Scan : Type 0 where
  pub window : List FileAccess
  pub files : Counter
  pub best : List FileAccess
  pub peak : ℕ

abbrev pub start : Scan
start = record { window = []; files = []; best = []; peak = 0 }

-- a missing key of a Counter counts 0
abbrev pub count_of : Option ℕ → ℕ
count_of none = 0
count_of (some n) = n

unfoldable pub increment : String → Counter → Counter
increment f m = put f (count_of (lookup f m) + 1) m

-- `files[f] -= 1; if not files[f]: del files[f]`
unfoldable pub decrement : String → Counter → Counter
decrement f m = let n = count_of (lookup f m) - 1 in if eqb n 0 then remove f m else put f n m

-- the `while window and t - window[0].at > window_seconds` loop
unfoldable pub evict : ℕ → ℕ → List FileAccess → Counter → List FileAccess × Counter
evict w t [] m = ([], m)
evict w t (e ∷ es) m =
    let rest = evict w t es (decrement e.file_id m) in
    if ltb (e.at + w) t then rest else (e ∷ es, m)

unfoldable pub step : ℕ → FileAccess → Scan → Scan
step w e s =
    let (window, files) = evict w e.at s.window s.files in
    let window' = window ++ (e ∷ []) in
    let files' = increment e.file_id files in
    if ltb s.peak (length files')
    then record { window = window'; files = files'; best = window'; peak = length files' }
    else record s { window = window'; files = files' }

unfoldable pub scan : ℕ → List FileAccess → Scan → Scan
scan w [] s = s
scan w (e ∷ es) s = scan w es (step w e s)
