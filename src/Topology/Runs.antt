-- ===== src/Topology/Runs.antt =====
-- The theorems about the topology at concrete scans.
use openethercat.Base.{ℕ, ◌≡◌, inl, inr, refl, true, false, List, [], ◌∷◌, String}
use openethercat.Base.Members.{Elem}
use openethercat.Config.{SlaveIdentity}
use openethercat.SlaveState.{op}
use openethercat.Mock.{MockTransport, new_mock, open_mock}
use openethercat.Mock.Inputs.{set_redundancy_healthy}
use openethercat.Mock.Services.{mock}
use openethercat.Topology.{SlaveInfo, Snapshot, compare_scans, detect_missing}
use openethercat.Topology.Changes.{compare_scans_added_removed}
use openethercat.Topology.Expected.{detect_missing_iff}
use openethercat.Topology.Manager.{new_manager, refresh}
use openethercat.Topology.Refresh.{refresh_stale}

abbrev at : ℕ → SlaveInfo
at position = record {
  position = position;
  vendor_id = 2;
  product_code = 7;
  esc_type = 0;
  esc_revision = 0;
  identity_from_coe = true;
  identity_from_sii = false;
  al_state_valid = true;
  al_state = op;
  online = true;
}

abbrev scan : List SlaveInfo → Snapshot
scan slaves = record { slaves = slaves; redundancy_healthy = true }

abbrev drive : SlaveIdentity
drive = record { name = "Drive"; alias = 0; position = 1; vendor_id = 2; product_code = 7 }

compare_scans_added_removed_example :
    Elem (at 3) (compare_scans (scan (at 1 ∷ [])) (scan (at 1 ∷ at 3 ∷ [])) 4).added
compare_scans_added_removed_example =
    (compare_scans_added_removed (scan (at 1 ∷ [])) (scan (at 1 ∷ at 3 ∷ [])) 4 (at 3)).0.1
      (refl, refl)

detect_missing_iff_example : Elem drive (detect_missing (at 3 ∷ []) (drive ∷ []))
detect_missing_iff_example =
    (detect_missing_iff (at 3 ∷ []) (drive ∷ []) drive).1
      (inl refl, λ here. elim here [ inl e ↦ cc | inr e ↦ e ])

abbrev no_hash : String → ℕ
no_hash s = 0

abbrev broken_ring : MockTransport
unfolding set_redundancy_healthy open_mock new_mock
broken_ring = set_redundancy_healthy (open_mock (new_mock 1 1)).0 false

refresh_stale_example : (refresh (mock no_hash) "left over" new_manager broken_ring).1.1.0 ≡ false
unfolding broken_ring
refresh_stale_example = refresh_stale no_hash "left over" new_manager broken_ring refl
