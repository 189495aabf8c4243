-- ===== src/Lib.antt =====
-- AISecure (aisecure/*.py): the local console that ingests a snapshot of assets and events, detects
-- findings, proposes a response plan for each, has it approved by two people, and hands it to a
-- responder; and the gateway that checks texts before they are sent to a model. This library
-- models the parts that decide, as functions on explicit state, and proves what makes them correct.
--
-- The parts, and the files they stand in.
--   aisecure/store.py        Store: State (the tables, the clock and the random source), Audit
--     (`_audit`, `verify_audit`, `transaction`, `record`), Snapshots (`ingest`, `snapshot`,
--     `get_finding`), Report (`state`, `export_document`, the end of `__init__`), Proposals (`propose`), Approvals (`approve_and_simulate`,
--     `approve_for_execution` and the claims), Execution (`execute_approved`), Calls (the calls
--     that write, as one data type). The theorems stand in Audit/Chain, Integrity, Lifecycle,
--     Dispatch, Checks, Ready, Answers, Atomic and Attested.
--   aisecure/engine.py       Engine, with the sliding window in Engine/Window and the theorem
--     on AS-004 in Engine/Correlation.
--   aisecure/rules.py        Rules, with its theorem in Rules/Accepted.
--   aisecure/policy.py       Policy.
--   aisecure/storage.py      Cipher, with its theorem in Cipher/Roundtrip.
--   aisecure/preflight.py    Preflight, with its theorem in Preflight/Decide, over the
--     grants of Preflight/Granted.
--   aisecure/schema.py       Schema: the validators; Normalize (`normalize`); the theorem stands in
--     WellFormed, over the predicates of Fits.
--   aisecure/approvals.py    Approvals, with its theorems in Approvals/Claims and
--     Approvals/Verified.
--   aisecure/responder.py    Responder, with its theorems in Responder/Bound, and together with the
--     store in Responder/Delivered.
--   aisecure/audit_sink.py   AuditSink, with the command publish-checkpoint of aisecure/__main__.py
--     in AuditSink/Checkpoint, and the theorems in AuditSink/Acknowledged. Remote holds what it has
--     in common with the responder.
--   aisecure/control/response.py, common.py, audit.py, vpn.py   Control: Entry (the audit entries),
--     Device (the registered rule), Response (`plan`, `verify_pair`, `execute`); the theorem stands
--     in Guarded, over what Signed says of the proofs.
--   aisecure/posture.py      Posture: Tools (`audit_tools`) with its theorem in Reapproval; Versions
--     and Assess (`assess`) with the theorem in Unaffected, over the ranges of
--     Ranges; Dlp (`normalize_dlp`, `dlp_findings`)
--     with the theorem in Windows.
--   aisecure/monitor.py      Monitor, with its theorem in Monitor/Idle.
--   aisecure/safety.py       Gateway/Safety.
--   aisecure/gateway.py      Gateway: Evidence (the journal and the receipts), Label (the signed
--     class of a text), Send (`prepare`, `check`, `send`); the theorem stands in Allowed, over what
--     Label/Signed says of a label.
-- The store calls the engine on the current snapshot, the policy on a finding, and the cipher on
-- what it stores; the responder is what `execute_approved` calls, the approvals are what
-- `approve_for_execution` checks again, and the sink publishes the chain of the store; the gateway
-- calls preflight, the cipher and the stop. Document is the normalised
-- snapshot that all of them read, Json the JSON values, Text the operations on texts, Result the
-- exceptions, Exec the methods that read and write state and may raise.
--
-- How the code is modelled.
--   A method is a function from a state to a result and a state. What was written before an
--   exception stays written unless `transaction` rolls it back; the clock and the random source
--   move on even then. The tables are lists, in the order of their keys or of insertion.
--   A transaction holds the lock of the store, so calls from many threads are sequences of whole
--   calls. `execute_approved` holds no lock while the responder works, so its three parts are
--   calls of their own, and other calls may stand between them.
--   Python's library is a parameter: the record Platform holds the hashes, the JSON printer and
--   reader, base64, AES-GCM, Ed25519, the clock and the random source, and the record
--   Preflight.Library the URL and address parsers, NFKC and the two search patterns. What a
--   theorem asks of them is a named record of laws: Faithful (the cipher, base64 and UTF-8 give
--   back what they were given), Dependable (that, and the JSON text of an object is read as an
--   object), Unforgeable (a row of one table and a row of another that have one MAC have the same
--   fields).
--   Times are numbers: microseconds in the store and seconds in the gateway. A CVSS score and its
--   threshold are multiples of 2^-1074, so that every finite double is exact. Numbers are not
--   bounded, as in Python. A stored snapshot is printed and read by dumps_document and
--   loads_document, since it is always a normalised document. The status of a proposal is one of
--   the six that the program writes. Texts for the screen are left out.
--   Every loop is a recursion on the list that it runs over, so no fuel is used.
--
-- Not modelled: the opening of the database and its key; the reading of files and the JSON decoder
-- (`read_json`), whose result is an argument; baselines, evaluation, connectors, providers and the rest of aisecure/control; the gateway's HTTPS
-- transport, backup and label signing; the command lines and web servers, which are input and
-- output.
pub mod Prelude
pub mod Result
pub mod Exec
pub mod Json
pub mod Text
pub mod Platform
pub mod Rules
pub mod Document
pub mod Engine
pub mod Policy
pub mod Cipher
pub mod Store
pub mod Preflight
pub mod Gateway
pub mod Schema
pub mod Approvals
pub mod Remote
pub mod Responder
pub mod AuditSink
pub mod Control
pub mod Posture
pub mod Monitor
mod Tests
