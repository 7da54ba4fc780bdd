-- ===== src/Topology/Manager.antt =====
-- `TopologyManager` of src/master/topology_manager.cpp: the last scan, and the changes since the one
-- before.
use openethercat.Base.{
  ℕ, ◌+◌, ◌%◌, Bool, true, false, not, ◌&&◌, List, none, some, String, if◌then◌else◌, is_empty,
}
use openethercat.Config.{SlaveIdentity}
use openethercat.Transport.{Transport}
use openethercat.Topology.{
  Snapshot, ChangeSet, initial_snapshot, initial_changes, compare_scans, detect_hot_connected,
  detect_missing,
}

pub record TopologyManager : Type 0 where
  pub snapshot : Snapshot
  pub changes : ChangeSet
  pub generation : ℕ

unfoldable pub new_manager : TopologyManager
new_manager = record { snapshot = initial_snapshot; changes = initial_changes; generation = 0 }

-- A 64-bit counter.
abbrev pub next64 : ℕ → ℕ
next64 n = (n + 1) % 18446744073709551616

-- The manager after a scan that was accepted.
unfoldable pub accept_scan : TopologyManager → Snapshot → TopologyManager
unfolding compare_scans
accept_scan manager current =
    let changes = compare_scans manager.snapshot current (next64 manager.generation) in
    record { snapshot = current; changes = changes; generation = changes.generation }

module _ {T : Type 0} (io : Transport T) where
  -- The text passed in is given back with what the calls left in it.
  unfoldable pub refresh : String → TopologyManager → T → T × (TopologyManager × (Bool × String))
  unfolding accept_scan
  refresh error manager t =
      let (scanned, (found, scan_error)) = io.discover_topology error t in
      elim found [
        | none ↦ (scanned, (manager, (false, scan_error)))
        | some current ↦
            let (checked, (healthy, link_error)) =
              io.is_redundancy_link_healthy scan_error scanned in
            if not healthy && not (is_empty link_error)
            then (checked, (manager, (false, link_error)))
            else (
              checked,
              (
                accept_scan manager (record current { redundancy_healthy = healthy }),
                (true, link_error),
              ),
            )
      ]

unfoldable pub manager_hot_connected : TopologyManager → List SlaveIdentity → List SlaveIdentity
manager_hot_connected manager = detect_hot_connected manager.snapshot.slaves

unfoldable pub manager_missing : TopologyManager → List SlaveIdentity → List SlaveIdentity
manager_missing manager = detect_missing manager.snapshot.slaves
