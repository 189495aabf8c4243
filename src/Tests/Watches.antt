-- ===== src/Tests/Watches.antt =====
-- A monitor that reads the same export twice.
use aisecure.Prelude.{◌≡◌, refl, some, none, true}
use aisecure.Json.{end}
use aisecure.Result.{ok}
use aisecure.Monitor.{
  Collected, Watch, on_store, remember, ingest_raw, report_unchanged, take_in, poll_once,
}
use aisecure.Monitor.Idle.{poll_once-idle}
use aisecure.Store.Report.{summarize, is_expired, list_proposals, payloads_of, state}
use aisecure.Tests.Inputs.{reads, input_file}
use aisecure.Tests.Chains.{program, os, self, empty}

unfoldable watching : Unit {0}
unfolding on_store remember ingest_raw report_unchanged take_in poll_once summarize is_expired
    list_proposals payloads_of state
watching = tt

abbrev collected : Collected
collected = record { raw = input_file; events = 2; warnings = 0 }

abbrev fresh : Watch
fresh = record { store = empty; fingerprint = none }

polled :
    (poll_once os self end collected fresh).0
    ≡ ok (record { changed = true; snapshot_id = some "S-d"; findings = 1; priority_one = 1 })
unfolding program reads watching
polled = refl

poll_once-idle_example :
    ((poll_once os self end collected (poll_once os self end collected fresh).1).1.store.db
      ≡ (poll_once os self end collected fresh).1.store.db)
    × ((poll_once os self end collected (poll_once os self end collected fresh).1).1.fingerprint
        ≡ (poll_once os self end collected fresh).1.fingerprint)
poll_once-idle_example =
    poll_once-idle os self end collected fresh
      (record { changed = true; snapshot_id = some "S-d"; findings = 1; priority_one = 1 }) polled
