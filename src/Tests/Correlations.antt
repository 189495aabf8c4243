-- ===== src/Tests/Correlations.antt =====
-- A login that is tied to the reads after it.
use aisecure.Prelude.{◌≡◌, refl, [], ◌∷◌, none, some, true, false}
use aisecure.Text.{take_text}
use aisecure.Document.{Login, FileAccess}
use aisecure.Rules.{digest}
use aisecure.Engine.{
  Finding, p1, related, same_session_within, exploitation_unconfirmed, correlation,
  suspicious_login, sensitive_files, latest, is_eligible, correlation_finding, finding_id,
}
use aisecure.Engine.Correlation.{Correlated, correlation_finding-Correlated}
use aisecure.Tests.Chains.{os, config}

abbrev entry : Login
entry = record {
  id = "e1";
  at = 100;
  actor = "ann";
  session = "s1";
  gateway_id = "vpn-1";
  success = true;
  privileged = some true;
  device_trusted = some false;
  approved = some true;
}

abbrev access : FileAccess
access = record {
  id = "e2";
  at = 200;
  actor = "ann";
  session = "s1";
  asset_id = "srv-1";
  file_id = "f1";
  sensitive = some true;
  bytes_read = none;
}

abbrev incident : Finding
incident = record {
  id = "F-";
  rule = "AS-004";
  config_digest = digest os config;
  priority = p1;
  reasons = related ∷ same_session_within 30 ∷ exploitation_unconfirmed ∷ [];
  evidence_ids = "asset:vpn-1" ∷ "e1" ∷ "e2" ∷ [];
  kind = correlation;
  actor = some "ann";
  asset_id = some "srv-1";
  gateway_id = some "vpn-1";
  at = some 200;
  distinct_files = 1;
  sensitive_files = 1;
}

found :
    correlation_finding os config
      ("vpn-1" ∷ [])
      (entry ∷ [])
      ("ann", ("s1", "srv-1"))
      (access ∷ [])
      1
    ≡ incident ∷ []
unfolding suspicious_login sensitive_files latest is_eligible correlation_finding finding_id
    take_text
found = refl

correlation_finding-Correlated_example :
    Correlated os config ("vpn-1" ∷ []) (entry ∷ []) ("ann", ("s1", "srv-1")) (access ∷ [])
correlation_finding-Correlated_example =
    correlation_finding-Correlated os config ("vpn-1" ∷ []) (entry ∷ []) ("ann", ("s1", "srv-1"))
      (access ∷ []) 1 incident [] found
