-- ===== src/Topology/Refresh.antt =====
-- What a refresh of the topology does to the manager.
use openethercat.Base.{
  ℕ, ◌≡◌, refl, ◌⊎◌, inl, inr, arith, true, false, not, ◌&&◌, ◌||◌, String, is_empty, Option-cases,
  Bool-cases,
}
use openethercat.Mock.{MockTransport}
use openethercat.Mock.Services.{mock, discover_topology_mock, is_redundancy_link_healthy_mock}
use openethercat.Transport.{Transport}
use openethercat.Topology.{Snapshot, compare_scans}
use openethercat.Topology.Manager.{TopologyManager, new_manager, accept_scan, refresh, next64}

-- The change set belongs to the last scan.
pub record IsCurrent (manager : TopologyManager) : Type 0 where
  pub numbered : manager.changes.generation ≡ manager.generation
  pub health : manager.changes.redundancy_healthy ≡ manager.snapshot.redundancy_healthy

new_manager-IsCurrent : IsCurrent new_manager
unfolding new_manager
new_manager-IsCurrent = record { numbered = refl; health = refl }

-- What an accepted scan makes of a manager.
pub record Follows (before after : TopologyManager) : Type 0 where
  pub next : after.generation ≡ next64 before.generation
  pub current : IsCurrent after
  pub previous_health :
      after.changes.previous_redundancy_healthy ≡ before.snapshot.redundancy_healthy
  pub compared :
      after.changes ≡ compare_scans before.snapshot after.snapshot (next64 before.generation)

accept_scan-Follows :
    (manager : TopologyManager) (scan : Snapshot) → Follows manager (accept_scan manager scan)
unfolding accept_scan compare_scans
accept_scan-Follows manager scan = record {
  next = refl;
  current = record { numbered = refl; health = refl };
  previous_health = refl;
  compared = refl;
}

-- A refresh of the topology is all or nothing: either it reports a failure and the manager is as it
-- was, or it reports success and the manager holds the next generation, whose change set compares
-- the last scan with the new one.
refresh_cases :
    {T : Type 0} (io : Transport T) (error : String) (manager : TopologyManager) (t : T)
    → let (after, (ok, message)) = (refresh io error manager t).1 in
      ((ok ≡ false) × (after ≡ manager)) ⊎ ((ok ≡ true) × Follows manager after)
unfolding refresh
refresh_cases io error manager t = elim (Option-cases (io.discover_topology error t).1.0) [
  | inl e ↦ rw (e, refresh) (inl (refl, refl))
  | inr (scan, e) ↦
      let scanned = io.discover_topology error t in
      let link = io.is_redundancy_link_healthy scanned.1.1 scanned.0 in
      elim (Bool-cases (not link.1.0 && not (is_empty link.1.1))) [
        | inl down ↦ rw (e, refresh, down) (inl (refl, refl))
        | inr fine ↦
            rw (e, refresh, fine)
              (inr
                (refl, accept_scan-Follows manager (record scan { redundancy_healthy = link.1.0 })))
      ]
]

-- On the simulated network a refresh with a text left over from an earlier call fails while the
-- redundancy link is down, and with an empty text it succeeds.
pub refresh_stale :
    (hash : String → ℕ) (error : String) (manager : TopologyManager) (m : MockTransport)
    → m.opened ≡ true
    → (refresh (mock hash) error manager m).1.1.0 ≡ (m.redundancy_healthy || is_empty error)
unfolding refresh mock discover_topology_mock is_redundancy_link_healthy_mock
refresh_stale hash error manager m up = ground arith
