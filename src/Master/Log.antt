-- ===== src/Master/Log.antt =====
-- The logs of src/master/ethercat_master.cpp: recovery events and redundancy transitions, each bounded.
use openethercat.Base.{
  ℕ, ◌-◌, Bool, true, false, List, [], ◌∷◌, ◌++◌, String, if◌then◌else◌, ltb, length, drop,
}
use openethercat.Topology.Manager.{next64}
use openethercat.Master.{
  Master, RecoveryEvent, RedundancyState, primary_only, redundant_healthy, redundancy_degraded,
  recovering, RedundancyTransition,
}

-- The newest `limit` entries.
abbrev pub newest {ℓ} : {A : Type ℓ} → ℕ → List A → List A
newest limit entries = drop (length entries - limit) entries

unfoldable pub same_redundancy : RedundancyState → RedundancyState → Bool
same_redundancy primary_only primary_only = true
same_redundancy redundant_healthy redundant_healthy = true
same_redundancy redundancy_degraded redundancy_degraded = true
same_redundancy recovering recovering = true
same_redundancy a b = false

module _ {T : Type 0} where
  abbrev pub set_error : String → Master T → Master T
  set_error message m = record m { error = message }

  unfoldable pub append_recovery_event : RecoveryEvent → Master T → Master T
  append_recovery_event event m =
      let events = m.recovery_events ++ (event ∷ []) in
      record m {
        recovery_events =
            if ltb m.recovery_options.max_event_history (length events)
            then newest m.recovery_options.max_event_history events
            else events;
      }

  abbrev pub redundancy_transition : RedundancyState → String → ℕ → Master T → RedundancyTransition
  redundancy_transition target reason topology_generation m = record {
    cycle_index = m.statistics.cycles_total;
    topology_generation = topology_generation;
    before = m.redundancy_status.state;
    after = target;
    reason = reason;
  }

  unfoldable pub transition_redundancy_state : RedundancyState → String → ℕ → Master T → Master T
  unfolding same_redundancy
  transition_redundancy_state target reason topology_generation m =
      if same_redundancy m.redundancy_status.state target
      then record m { redundancy_status = record (m.redundancy_status) { last_reason = reason } }
      else let events =
          m.redundancy_transitions
          ++ (redundancy_transition target reason topology_generation m ∷ []) in
        record m {
          redundancy_transitions =
              if ltb m.max_redundancy_transition_history (length events)
              then newest m.max_redundancy_transition_history events
              else events;
          redundancy_status = record (m.redundancy_status) {
            state = target;
            last_reason = reason;
            transition_count = next64 m.redundancy_status.transition_count;
          };
        }
