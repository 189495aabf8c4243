-- ===== src/Store/Answers.antt =====
-- What `execute_approved` reports of the responder's answer.
use aisecure.Prelude.{◌≡◌, refl, String, Option, Bool, true, false, if◌then◌else◌}
use aisecure.Json.{Value}
use aisecure.Result.{ok}
use aisecure.Exec.{pure, lift}
use aisecure.Exec.Ensures.{bind-ok, reads-ok}
use aisecure.Policy.{Plan}
use aisecure.Platform.{Platform}
use aisecure.Store.State.{State, Store}
use aisecure.Store.Audit.{audit}
use aisecure.Store.Proposals.{update_proposal}
use aisecure.Store.Execution.{
  Context, Outcome, answered, raised, claims_verified, begin_execution, fail_execution,
  record_failure, finish_execution, settled, stale, after_response, execute_approved,
}
use aisecure.Store.Dispatch.{transaction-ok}

true_false : {A : Type 0} → ok true ≡ ok false → A
true_false h = cc

module _ (os : Platform) (self : Store) (adapter : String) where
  stale_answer : (pid : String) (s : State) → (stale os self adapter pid s).0 ≡ ok true → ⊥
  unfolding stale pure
  stale_answer pid s h =
      let (_, _, h1, _) = bind-ok (update_proposal pid _) _ s true h in
      let (_, _, h2, _) = bind-ok (audit os self _ _) _ _ true h1 in cc h2

  settled_answer :
      (pid : String) (result : Value) (s : State)
      → (settled os self adapter pid result s).0 ≡ ok true
      → claims_verified result ≡ true
  unfolding settled pure
  settled_answer pid result s h =
      let (_, _, h1, _) = bind-ok (update_proposal pid _) _ s true h in
      let (_, _, h2, _) = bind-ok (audit os self _ _) _ _ true h1 in cc h2

  one_of :
      (b : Bool) (pid : String) (result : Value) (s : State)
      → ((if b then settled os self adapter pid result else stale os self adapter pid) s).0
        ≡ ok true
      → claims_verified result ≡ true
  one_of true pid result s h = settled_answer pid result s h
  one_of false pid result s h = absurd (stale_answer pid s h)

  finish_answer :
      (pid sid : String) (result : Value) (s : State)
      → (finish_execution os self adapter pid sid result s).0 ≡ ok true
      → claims_verified result ≡ true
  unfolding finish_execution
  finish_answer pid sid result s h =
      let (h1, _, _) = transaction-ok os self _ s true h in
      let (fresh, _, h2, _) = reads-ok _ _ s true h1 in one_of fresh pid result s h2

  raised_answer :
      (pid error_type : String) (s : State)
      → (fail_execution os self adapter pid error_type s).0 ≡ ok true
      → ⊥
  unfolding lift fail_execution
  raised_answer pid error_type s h =
      let (_, _, h1, _) = bind-ok (record_failure os self adapter pid error_type) _ s true h in
      cc h1

  outcome_answer :
      (pid sid : String) (o : Outcome) (s : State)
      → (after_response os self adapter pid sid o s).0 ≡ ok true
      → (result : Value) × (o ≡ answered result) × (claims_verified result ≡ true)
  unfolding after_response
  outcome_answer pid sid (answered result) s h = (result, refl, finish_answer pid sid result s h)
  outcome_answer pid sid (raised error_type) s h = absurd (raised_answer pid error_type s h)

  -- `execute_approved` reports an executed action only when the first transaction returned and
  -- the responder, called with the plan and the context of it, answered with the status verified
  -- and with executed true, whatever other threads did to the store meanwhile.
  pub execute_approved-claims :
      (respond : Plan → Context → Outcome) (others : State → State) (pid sid : String)
      (provider : Option String) (s : State)
      → (execute_approved os self adapter respond others pid sid provider s).0 ≡ ok true
      → (p : Plan × Context) × (result : Value) × ((begin_execution os self adapter pid sid provider
            s).0
          ≡ ok p)
        × (respond p.0 p.1 ≡ answered result)
        × (claims_verified result ≡ true)
  unfolding execute_approved
  execute_approved-claims respond others pid sid provider s h =
      let (p, begun, h1, _) =
        bind-ok (begin_execution os self adapter pid sid provider) _ s true h in
      let (result, answer, claim) = outcome_answer pid sid (respond p.0 p.1) _ h1 in
      (p, result, begun, answer, claim)
