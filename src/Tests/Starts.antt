-- ===== src/Tests/Starts.antt =====
-- The approved proposal starts.
use aisecure.Prelude.{◌≡◌, refl, some}
use aisecure.Result.{ok}
use aisecure.Policy.{Plan}
use aisecure.Store.Approvals.{validate_target}
use aisecure.Store.Execution.{Context, begin_execution}
use aisecure.Store.Checks.{Checked, begin_execution-Checked}
use aisecure.Store.Ready.{begin_execution-starts}
use aisecure.Tests.Chains.{
  os, self, approved_state, snapshot_name, proposal_name, handed_over, started_once,
}

abbrev checked : Checked os self proposal_name snapshot_name (some "u1") approved_state handed_over
checked =
    begin_execution-Checked os self "hook" proposal_name snapshot_name (some "u1") approved_state
      handed_over started_once

target_fits : validate_target (some "u1") ≡ ok "u1"
unfolding validate_target
target_fits = refl

begin_execution-starts_example :
    (p : Plan × Context) × ((begin_execution os self "hook" proposal_name snapshot_name
        (some "u1")
        approved_state).0
      ≡ ok p)
begin_execution-starts_example =
    begin_execution-starts os self "hook" proposal_name snapshot_name "u1" approved_state
      checked.row checked.finding target_fits checked.chain checked.live checked.bound
      checked.current
