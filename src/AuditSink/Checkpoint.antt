-- ===== src/AuditSink/Checkpoint.antt =====
-- The command publish-checkpoint of aisecure/__main__.py, with a secret at hand.
use aisecure.Prelude.{ℕ, String, [], ◌∷◌, none}
use aisecure.Result.{validation, require}
use aisecure.Exec.{Exec, pure, lift, reads, ◌>>=◌, ◌>>◌}
use aisecure.Result.{ok}
use aisecure.Json.{Value, obj, fields, num, str}
use aisecure.Platform.{Platform}
use aisecure.Store.State.{State, Store}
use aisecure.Store.Audit.{verify_audit, record_entry}
use aisecure.Remote.{Reply}
use aisecure.AuditSink.{AuditSinkConfig, Publication, check_sink, publish}

abbrev pub checkpoint_value : ℕ → String → Value
checkpoint_value count tip = obj (fields (("count", num count) ∷ ("tip", str tip) ∷ []))

module _ (os : Platform) (self : Store) (config : AuditSinkConfig)
    (network : Publication → Reply) where
  abbrev pub entry_value : ℕ → String → Value
  entry_value count tip = obj (
      fields (
        ("count", num count)
        ∷ ("tip", str tip)
        ∷ ("adapter", str "external-audit-checkpoint")
        ∷ []))

  -- the branch of the command, up to what it prints
  unfoldable pub publish_checkpoint : ℕ → Exec State (String × (ℕ × String))
  publish_checkpoint reading = do
    audit ← reads (λ s. ok (verify_audit os self none s.db.audit))
    lift (require audit.valid validation)
    lift (check_sink config)
    result ← lift (publish os config network reading (checkpoint_value audit.count audit.tip))
    record_entry os self "audit.checkpoint_published" (entry_value audit.count audit.tip)
    pure result
