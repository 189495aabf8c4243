-- ===== src/Monitor/Idle.antt =====
-- Polling an input that has not changed.
use aisecure.Prelude.{
  ◌≡◌, refl, sym, String, List, [], ◌∷◌, Option, some, true, ==_refl, Bool-cases, inl, inr,
}
use mathlib.Core.Path.{subst}
use aisecure.Result.{ok}
use aisecure.Exec.{Exec}
use aisecure.Exec.Keeps.{Keeps, Keeps-pure, Keeps-lift, Keeps-reads, Keeps-if, Keeps-bind}
use aisecure.Exec.Ensures.{Ensures, Ensures-later, Ensures-now}
use aisecure.Json.{Fields}
use aisecure.Platform.{Platform}
use aisecure.Store.State.{Db, State, Store, ProposalRow, utcnow}
use aisecure.Store.Proposals.{is_pending}
use aisecure.Store.Report.{is_expired, list_proposals, state}
use aisecure.Monitor.{
  Collected, PollResult, Watch, on_store, remember, is_known, fingerprint_of, report_unchanged,
  take_in, poll_once,
}

module _ (os : Platform) (self : Store) (db : Db) where
  abbrev SameDb : State → Type 0
  SameDb s = s.db ≡ db

  Keeps-utcnow : Keeps SameDb (utcnow os self)
  unfolding utcnow
  Keeps-utcnow = record { at = λ s h. h }

  Keeps-is_expired : (r : ProposalRow) → Keeps SameDb (is_expired os self r)
  unfolding is_expired
  Keeps-is_expired r =
      Keeps-if (is_pending r.status) _ _
        (Keeps-bind _ _ (Keeps-lift _) λ t. Keeps-bind _ _ Keeps-utcnow λ now. Keeps-pure _)
        (Keeps-pure _)

  Keeps-list_proposals : (rows : List ProposalRow) → Keeps SameDb (list_proposals os self rows)
  unfolding list_proposals
  Keeps-list_proposals [] = Keeps-pure _
  Keeps-list_proposals (r ∷ rows) = Keeps-bind _ _ (Keeps-is_expired r) λ expired.
      Keeps-bind _ _ (Keeps-lift _)
        λ plan. Keeps-bind _ _ (Keeps-list_proposals rows) λ rest. Keeps-pure _

  Keeps-state : Keeps SameDb (state os self)
  unfolding state
  Keeps-state = Keeps-bind _ _ (Keeps-reads _) λ found. Keeps-bind _ _ (Keeps-reads _) λ verdict.
      Keeps-bind _ _ (Keeps-reads _) λ rows. Keeps-bind _ _ (Keeps-list_proposals rows) λ proposals.
        Keeps-bind _ _ (Keeps-reads _) λ records. Keeps-bind _ _ Keeps-utcnow λ now. Keeps-pure _

-- the tables are these
abbrev Tables : Db → Watch → Type 0
Tables db w = w.store.db ≡ db

-- the fingerprint is this
abbrev Knows : Option String → Watch → Type 0
Knows f w = w.fingerprint ≡ f

Keeps-on_store :
    {A : Type 0} (db : Db) (m : Exec State A)
    → Keeps (λ s. s.db ≡ db) m
    → Keeps (Tables db) (on_store m)
unfolding on_store
Keeps-on_store db m k = record { at = λ w h. k.at w.store h }

on_store-Knows : {A : Type 0} (f : Option String) (m : Exec State A) → Keeps (Knows f) (on_store m)
unfolding on_store
on_store-Knows f m = record { at = λ w h. h }

remember-Knows : (f : String) → Ensures (Knows (some f)) (remember f)
unfolding remember
remember-Knows f = record { at = λ w u h. refl }

module _ (os : Platform) (self : Store) (connector : Fields) where
  report-Tables : (db : Db) → Keeps (Tables db) (report_unchanged os self connector)
  unfolding report_unchanged
  report-Tables db = Keeps-bind _ _ (Keeps-on_store db _ (Keeps-state os self db)) λ r. Keeps-pure _

  report-Knows : (f : Option String) → Keeps (Knows f) (report_unchanged os self connector)
  unfolding report_unchanged
  report-Knows f = Keeps-bind _ _ (on_store-Knows f _) λ r. Keeps-pure _

  take_in-Knows :
      (c : Collected)
      → Ensures
          (Knows (some (fingerprint_of os self connector c.raw)))
          (take_in os self connector c)
  unfolding take_in
  take_in-Knows c =
      let f = fingerprint_of os self connector c.raw in
      Ensures-later _ _ λ sid. Ensures-now (remember f) _ (remember-Knows f) λ u.
        Keeps-bind _ _ (on_store-Knows (some f) _)
          λ report. Keeps-bind _ _ (on_store-Knows (some f) _) λ v. Keeps-pure _

  known_again :
      (o : Option String) (f : String)
      → is_known o f ≡ true
      → (g : Option String) → g ≡ o
      → is_known g f ≡ true
  known_again o f h g e = subst (λ (z : Option String). is_known z f ≡ true) {x = o} (sym e) h

  fingerprint_after :
      (c : Collected) (w : Watch) (r : PollResult)
      → (poll_once os self connector c w).0 ≡ ok r
      → is_known
          (poll_once os self connector c w).1.fingerprint
          (fingerprint_of os self connector c.raw)
        ≡ true
  unfolding poll_once
  fingerprint_after c w r h =
      elim (Bool-cases (is_known w.fingerprint (fingerprint_of os self connector c.raw))) [
        | inl known ↦
            rw known (known_again w.fingerprint _ known _ ((report-Knows w.fingerprint).at w refl))
        | inr fresh ↦
            let f = fingerprint_of os self connector c.raw in
            rw fresh
              (known_again (some f) f (==_refl f) _ ((take_in-Knows c).at w r (rw fresh at h)))
      ]

  idle :
      (c : Collected) (w : Watch)
      → is_known w.fingerprint (fingerprint_of os self connector c.raw) ≡ true
      → ((poll_once os self connector c w).1.store.db ≡ w.store.db)
        × ((poll_once os self connector c w).1.fingerprint ≡ w.fingerprint)
  unfolding poll_once
  idle c w known =
      rw known ((report-Tables w.store.db).at w refl, (report-Knows w.fingerprint).at w refl)

  -- After a poll that returned, another poll of the same input changes no table and no fingerprint,
  -- whether it then returns or raises: the input is not ingested again, and nothing is added to the
  -- audit chain.
  pub poll_once-idle :
      (c : Collected) (w : Watch) (r : PollResult)
      → (poll_once os self connector c w).0 ≡ ok r
      → ((poll_once os self connector c (poll_once os self connector c w).1).1.store.db
          ≡ (poll_once os self connector c w).1.store.db)
        × ((poll_once os self connector c (poll_once os self connector c w).1).1.fingerprint
            ≡ (poll_once os self connector c w).1.fingerprint)
  poll_once-idle c w r h = idle c (poll_once os self connector c w).1 (fingerprint_after c w r h)
