-- ===== src/Control/Guarded.antt =====
-- When the registered rule of a device is written.
use aisecure.Prelude.{
  ℕ, ◌≡◌, ◌⊎◌, refl, sym, ap, ◌∙◌, inl, inr, String, List, [], ◌∷◌, Option, none, some, Bool, true,
  ◌==◌, lookup, text_eq, Bool-cases, ==→eq, if◌then◌else◌,
}
use aisecure.Result.{ok, control, require, require_ok}
use aisecure.Exec.{Exec, pure}
use aisecure.Exec.Ensures.{lift-after, bind-after, bind-state}
use aisecure.Json.{Value, Fields, obj}
use aisecure.Platform.{Platform, Bytes}
use aisecure.Approvals.{text_at}
use aisecure.Gateway.Safety.{Sentinel, assert_clear}
use aisecure.Gateway.Evidence.{Evidence, reserve, finish}
use aisecure.Control.Entry.{entry}
use aisecure.Control.Signed.{TwoSigners, verify_pair-TwoSigners}
use aisecure.Control.Device.{
  DeviceCall, read, write, RuleState, expected_status, known_operation, request, read_state,
  apply_operation, state_of,
}
use aisecure.Control.Response.{
  Signer, verify_pair, Adapter, World, on_books, on_device, caught, found, changed_outcome,
  dispatch, attempt, request_name, details, fingerprint, final_of, carry_out, replay_or, execute,
}

-- the writes among the calls to a device
abbrev pub writes : List DeviceCall → List String
writes [] = []
writes (read ∷ calls) = writes calls
writes (write status ∷ calls) = status ∷ writes calls

module _ (os : Platform) (a : Adapter) where
  read_state_calls :
      (calls : List DeviceCall)
      → (read_state os a.target a.network a.deployment_verified calls).1 ≡ read ∷ calls
  unfolding read_state request
  read_state_calls calls =
      bind-state (request os a.target a.network a.deployment_verified read)
        (λ fs. state_of os a.target _ _) calls

  -- one write at most
  abbrev WroteOnce : String → List DeviceCall → List DeviceCall → Type 0
  WroteOnce operation before after =
      (writes after ≡ writes before) ⊎ (writes after ≡ expected_status operation ∷ writes before)

  apply-WroteOnce :
      (operation : String) (calls : List DeviceCall)
      → WroteOnce operation calls
          (apply_operation os a.target a.network a.deployment_verified operation calls).1
  unfolding apply_operation request pure
  apply-WroteOnce operation calls =
      lift-after (require a.deployment_verified control) _ calls (WroteOnce operation calls)
        (inl refl)
        λ u v.
          lift-after (require (known_operation operation) control) _ calls
            (WroteOnce operation calls) (inl refl)
            λ w x.
              bind-after
                (request os a.target a.network a.deployment_verified
                  (write (expected_status operation)))
                _ calls (WroteOnce operation calls) (λ c e. inr refl) (λ fs e. inr refl)

  device_after :
      {A : Type 0} (m : Exec (List DeviceCall) A) (w : World)
      → (on_device m w).1.calls ≡ (m w.calls).1
  unfolding on_device
  device_after m w = refl

  device_answer :
      {A : Type 0} (m : Exec (List DeviceCall) A) (w : World) → (on_device m w).0 ≡ (m w.calls).0
  unfolding on_device
  device_answer m w = refl

  abbrev reading : Exec World RuleState
  reading = on_device (read_state os a.target a.network a.deployment_verified)

  writes-reading : (w : World) → writes (reading w).1.calls ≡ writes w.calls
  writes-reading w = ap writes (
      device_after (read_state os a.target a.network a.deployment_verified) w
      ∙ read_state_calls w.calls)

  module _ (self : Evidence) (audit_key : Bytes) (adapters : List (String × Adapter))
      (keys : List (String × Bytes)) where
    pub record Cleared (middle last : Sentinel) (state_hash : String) (calls : List DeviceCall)
        : Type 0 where
      pub clear_middle : assert_clear middle ≡ ok tt
      pub clear_last : assert_clear last ≡ ok tt
      pub current : RuleState
      pub seen : (read_state os a.target a.network a.deployment_verified calls).0 ≡ ok current
      pub approved_state : current.state_hash ≡ state_hash

    module _ (middle last : Sentinel) (operation state_hash : String) (w : World) where
      -- nothing is written, or the one operation when cleared
      abbrev pub WroteCleared : World → Type 0
      WroteCleared after =
          (writes after.calls ≡ writes w.calls)
          ⊎ (Cleared middle last state_hash w.calls
              × (writes after.calls ≡ expected_status operation ∷ writes w.calls))

      still :
          (v : World)
          → Cleared middle last state_hash w.calls
          → writes v.calls ≡ writes w.calls
          → WroteOnce operation v.calls
              (apply_operation os a.target a.network a.deployment_verified operation v.calls).1
          → WroteCleared
              (on_device
                (apply_operation os a.target a.network a.deployment_verified operation)
                v).1
      still v c same (inl e) = inl (ap writes (device_after _ v) ∙ e ∙ same)
      still v c same (inr e) =
          inr (c, ap writes (device_after _ v) ∙ e ∙ ap (λ xs. expected_status operation ∷ xs) same)

      read_after : (v : World) → WroteCleared v → WroteCleared (reading v).1
      read_after v (inl e) = inl (writes-reading v ∙ e)
      read_after v (inr (c, e)) = inr (c, writes-reading v ∙ e)

      dispatch-WroteCleared :
          (v : World)
          → writes v.calls ≡ writes w.calls
          → (assert_clear last ≡ ok tt → Cleared middle last state_hash w.calls)
          → WroteCleared (dispatch os self audit_key adapters keys a last operation v).1
      unfolding dispatch pure
      dispatch-WroteCleared v same cleared =
          let apply =
            on_device (apply_operation os a.target a.network a.deployment_verified operation) in
          lift-after (assert_clear last) _ v WroteCleared (inl same) λ u clear.
            let applied = still v (cleared clear) same (apply-WroteOnce operation v.calls) in
            bind-after apply _ v WroteCleared (λ c e. applied)
              λ x e.
                let t = (apply v).1 in
                bind-after reading _ t WroteCleared (λ c e. read_after t applied)
                  λ y e. read_after t applied

      attempt-WroteCleared :
          WroteCleared
            (attempt os self audit_key adapters keys a middle last operation state_hash w).1
      unfolding attempt pure
      attempt-WroteCleared = lift-after (assert_clear middle) _ w WroteCleared (inl refl) λ u clear.
          bind-after reading _ w WroteCleared (λ c e. inl (writes-reading w))
            λ current seen.
              branch current
                (sym (device_answer (read_state os a.target a.network a.deployment_verified) w)
                  ∙ seen)
                clear
        where
          branch :
              (current : RuleState)
              → (read_state os a.target a.network a.deployment_verified w.calls).0 ≡ ok current
              → assert_clear middle ≡ ok tt
              → WroteCleared
                  ((if current.state_hash == state_hash
                      then dispatch os self audit_key adapters keys a last operation
                      else pure changed_outcome)
                    (reading w).1).1
          branch current seen clear = elim (Bool-cases (current.state_hash == state_hash)) [
            | inl same ↦ rw same (
                dispatch-WroteCleared (reading w).1 (writes-reading w) (λ clear_last. record {
                  clear_middle = clear;
                  clear_last = clear_last;
                  current = current;
                  seen = seen;
                  approved_state = ==→eq current.state_hash state_hash same;
                }))
            | inr differs ↦ rw differs (inl (writes-reading w))
          ]

module _ (os : Platform) (self : Evidence) (audit_key : Bytes) (adapters : List (String × Adapter))
    (keys : List (String × Bytes)) where
  -- the reservation is there and the outcome is kept: the device is as the attempt left it
  carry_out-WroteCleared :
      (a : Adapter) (middle last : Sentinel) (fs initial : Fields) (w : World)
      → WroteCleared os a self audit_key adapters keys middle last
          (text_at "operation" fs)
          (text_at "state_hash" fs)
          w
          (carry_out os self audit_key adapters keys a middle last fs initial w).1
  unfolding carry_out caught on_books pure
  carry_out-WroteCleared a middle last fs initial w =
      let Wrote =
        WroteCleared os a self audit_key adapters keys middle last (text_at "operation" fs)
          (text_at "state_hash" fs) w in
      let body =
        attempt os self audit_key adapters keys a middle last (text_at "operation" fs)
          (text_at "state_hash" fs) in
      let wrote =
        attempt-WroteCleared os a self audit_key adapters keys middle last (text_at "operation" fs)
          (text_at "state_hash" fs) w in
      bind-after (caught body) _ w Wrote (λ c e. wrote)
        λ o e.
          bind-after
            (on_books (
              finish os self (request_name os self audit_key adapters keys fs)
                (obj (final_of os self audit_key adapters keys o initial))))
            _ (caught body w).1 Wrote (λ c e. wrote) λ x e. wrote

  module _ (early middle last : Sentinel) (consent : Bool) (now : ℕ) (proposal proofs : Value)
      (w : World) where
    -- what a write to the device rests on
    pub record Guarded (after : World) : Type 0 where
      pub consented : consent ≡ true
      pub fs : Fields
      pub first : Signer
      pub second : Signer
      pub verified : verify_pair os keys now proposal proofs ≡ ok (fs, (first, second))
      pub signers : TwoSigners os keys proposal first second
      pub adapter : Adapter
      pub registered : found (lookup (text_at "target" fs) adapters) ≡ ok adapter
      pub clear_early : assert_clear early ≡ ok tt
      pub initial : Fields
      pub reserved :
          (reserve os self
            (request_name os self audit_key adapters keys fs)
            (fingerprint os self audit_key adapters keys proposal)
            (obj initial)
            w.books).0
          ≡ ok none
      pub cleared :
          Cleared os adapter self audit_key adapters keys middle last
            (text_at "state_hash" fs)
            w.calls
      pub written : writes after.calls ≡ expected_status (text_at "operation" fs) ∷ writes w.calls

    abbrev pub WroteGuarded : World → Type 0
    WroteGuarded after = (writes after.calls ≡ writes w.calls) ⊎ Guarded after

    reserved :
        (p : Fields × (Signer × Signer)) (a : Adapter) (initial : Fields) (prior : Option Value)
        → require consent control ≡ ok tt
        → verify_pair os keys now proposal proofs ≡ ok p
        → found (lookup (text_at "target" p.0) adapters) ≡ ok a
        → assert_clear early ≡ ok tt
        → (on_books
            (reserve os self
              (request_name os self audit_key adapters keys p.0)
              (fingerprint os self audit_key adapters keys proposal)
              (obj initial))
            w).0
          ≡ ok prior
        → WroteGuarded
            (replay_or os self audit_key adapters keys prior
              (carry_out os self audit_key adapters keys a middle last p.0 initial)
              (on_books
                (reserve os self
                  (request_name os self audit_key adapters keys p.0)
                  (fingerprint os self audit_key adapters keys proposal)
                  (obj initial))
                w).1).1
    unfolding replay_or on_books pure
    reserved p a initial (some report) agreed verified registered clear e = inl refl
    reserved p a initial none agreed verified registered clear e = carried (
        carry_out-WroteCleared a middle last p.0 initial
          (on_books
            (reserve os self (request_name os self audit_key adapters keys p.0)
              (fingerprint os self audit_key adapters keys proposal) (obj initial))
            w).1)
      where
        carried :
            {after : World}
            → (writes after.calls ≡ writes w.calls)
              ⊎ (Cleared os a self audit_key adapters keys middle last
                    (text_at "state_hash" p.0)
                    w.calls
                  × (writes after.calls
                      ≡ expected_status (text_at "operation" p.0) ∷ writes w.calls))
            → WroteGuarded after
        carried (inl same) = inl same
        carried (inr (cleared, written)) = inr (record {
          consented = require_ok _ _ tt agreed;
          fs = p.0;
          first = p.1.0;
          second = p.1.1;
          verified = verified;
          signers = verify_pair-TwoSigners os keys now proposal proofs p verified;
          adapter = a;
          registered = registered;
          clear_early = clear;
          initial = initial;
          reserved = e;
          cleared = cleared;
          written = written;
        })

    -- `ResponseController.execute`, however it ends, writes to the device at most once. When it
    -- writes, it is the status of the approved operation, consent was given, the proposal passed its
    -- checks, two different people with two different registered keys have signed the approval of
    -- exactly this proposal in two different roles, the target's adapter is registered and its
    -- deployment verified, the emergency stop was clear all three times, the reservation of the
    -- proposal's identifier was new, and the state that the device reported after it has the hash
    -- that was approved.
    pub execute-WroteGuarded :
        WroteGuarded
          (execute os self audit_key adapters keys early middle last consent now proposal proofs
            w).1
    unfolding execute on_books
    execute-WroteGuarded =
        lift-after (require consent control) _ w WroteGuarded (inl refl) λ u agreed.
          lift-after (verify_pair os keys now proposal proofs) _ w WroteGuarded (inl refl)
            λ p verified.
              lift-after (found (lookup (text_at "target" p.0) adapters)) _ w WroteGuarded
                (inl refl)
                λ a registered.
                  lift-after (assert_clear early) _ w WroteGuarded (inl refl) λ v clear.
                    lift-after
                      (entry os audit_key (details os self audit_key adapters keys p.0 p.1.0 p.1.1))
                      _ w WroteGuarded (inl refl)
                      λ initial made.
                        bind-after
                          (on_books (
                            reserve os self (request_name os self audit_key adapters keys p.0)
                              (fingerprint os self audit_key adapters keys proposal) (obj initial)))
                          _ w WroteGuarded (λ c e. inl refl)
                          (λ prior e. reserved p a initial prior agreed verified registered clear e)
