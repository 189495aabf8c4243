-- ===== src/Tests/Transfers.antt =====
-- Three transfers of one actor within a day.
use aisecure.Prelude.{ℕ, List, [], ◌∷◌, ◌≡◌, refl, String, none, sort_by}
use aisecure.Posture.Dlp.{
  Transfer, dlp002, earlier, evict, first_window, group_finding, window_finding,
}
use aisecure.Posture.Windows.{reference, group_finding-reference}

abbrev transfer : String → ℕ → Transfer
transfer id at = record {
  event_id = id;
  source = "dlp";
  at = at;
  actor = "a";
  operation = "upload";
  tenant = "personal";
  data_class = "internal";
  bytes = none;
  outcome = "unknown";
}

abbrev transfers : List Transfer
transfers =
    transfer "e-4" 200000 ∷ transfer "e-1" 1000 ∷ transfer "e-2" 150000 ∷ transfer "e-3" 190000 ∷ []

found :
    group_finding transfers
    ≡ record { rule = dlp002; evidence_ids = "e-2" ∷ "e-3" ∷ "e-4" ∷ []; observed_outcome = none }
      ∷ []
unfolding group_finding first_window evict
found = refl

group_finding-reference_example :
    group_finding transfers ≡ window_finding (reference [] (sort_by earlier transfers))
group_finding-reference_example = group_finding-reference transfers
