-- ===== src/Store/Calls.antt =====
-- The public calls that write to the store, in any order and from any thread: each is one step,
-- since a transaction holds the lock. The three parts of `execute_approved` are steps of their
-- own, with other calls between them.
use aisecure.Prelude.{String, List, Option, none, some}
use aisecure.Result.{Result, Code, ok, err}
use aisecure.Json.{Value, Fields, obj}
use aisecure.Document.{Document}
use aisecure.Platform.{Platform}
use aisecure.Store.State.{State, Store}
use aisecure.Store.Audit.{record_entry}
use aisecure.Store.Snapshots.{ingest}
use aisecure.Store.Proposals.{propose}
use aisecure.Store.Approvals.{approve_and_simulate, approve_for_execution}
use aisecure.Store.Execution.{begin_execution, fail_execution, finish_execution}

pub data Call : Type 0 where
  record_call : String → Fields → Call
  ingest_call : Document → Call
  propose_call : String → String → Call
  simulate_call : String → String → String → String → Call
  approve_call :
      String
      → String
      → String
      → String
      → String
      → String
      → String
      → Option String
      → Option (List Value)
      → Call
  begin_call : String → String → Option String → Call
  fail_call : String → String → Call
  finish_call : String → String → Value → Call

module _ (os : Platform) (self : Store) (adapter : String) where
  -- the state after a call, whether it returned or raised
  unfoldable pub perform : Call → State → State
  perform (record_call action fs) s = (record_entry os self action (obj fs) s).1
  perform (ingest_call d) s = (ingest os self d s).1
  perform (propose_call sid fid) s = (propose os self sid fid s).1
  perform (simulate_call pid sid confirmation reason) s =
      (approve_and_simulate os self pid sid confirmation reason s).1
  perform (approve_call pid sid confirmation second reason primary secondary provider claims) s =
      (approve_for_execution os self pid sid confirmation second reason primary secondary provider
        claims s).1
  perform (begin_call pid sid provider) s = (begin_execution os self adapter pid sid provider s).1
  perform (fail_call pid error_type) s = (fail_execution os self adapter pid error_type s).1
  perform (finish_call pid sid result) s = (finish_execution os self adapter pid sid result s).1

  unfoldable pub perform_all : List Call → State → State
  perform_all List.[] s = s
  perform_all (List.◌∷◌ c calls) s = perform_all calls (perform c s)

  abbrev pub error_of : {A : Type 0} → Result A → Option Code
  error_of (ok a) = none
  error_of (err c) = some c

  -- what the call raises, if it does
  unfoldable pub failure : Call → State → Option Code
  failure (record_call action fs) s = error_of (record_entry os self action (obj fs) s).0
  failure (ingest_call d) s = error_of (ingest os self d s).0
  failure (propose_call sid fid) s = error_of (propose os self sid fid s).0
  failure (simulate_call pid sid confirmation reason) s =
      error_of (approve_and_simulate os self pid sid confirmation reason s).0
  failure (approve_call pid sid confirmation second reason primary secondary provider claims) s =
      error_of
        (approve_for_execution os self pid sid confirmation second reason primary secondary provider
          claims s).0
  failure (begin_call pid sid provider) s =
      error_of (begin_execution os self adapter pid sid provider s).0
  failure (fail_call pid error_type) s =
      error_of (fail_execution os self adapter pid error_type s).0
  failure (finish_call pid sid result) s =
      error_of (finish_execution os self adapter pid sid result s).0
