-- ===== src/Master/Policy.antt =====
-- The topology policy of src/master/ethercat_master.cpp: conditions that last are answered once.
use openethercat.Base.{
  ℕ, Bool, true, false, not, ◌&&◌, List, [], ◌∷◌, Option, none, some, String, ◌<>◌, if◌then◌else◌,
  leb,
}
use openethercat.Base.Text.{to_string}
use openethercat.Config.{SlaveIdentity}
use openethercat.Diagnostics.{
  RecoveryAction, no_action, retry_transition, failover, reconfigure as reconfigure_slave,
}
use openethercat.Topology.Manager.{next64, refresh, manager_missing, manager_hot_connected}
use openethercat.Transport.{Transport}
use openethercat.Master.{
  Master, TopologyPolicyAction, monitor, retry, reconfigure, degrade, fail_stop, redundant_healthy,
  redundancy_degraded, recovering,
}
use openethercat.Master.Log.{append_recovery_event, transition_redundancy_state, same_redundancy}
use openethercat.Master.Recovery.{recover_network}
use openethercat.Master.Wait.{Host}

unfoldable map_topology_action : TopologyPolicyAction → RecoveryAction
map_topology_action monitor = no_action
map_topology_action retry = retry_transition
map_topology_action reconfigure = reconfigure_slave
map_topology_action degrade = failover
map_topology_action fail_stop = failover

abbrev pub first_position : List SlaveIdentity → Option ℕ
first_position [] = none
first_position (s ∷ rest) = some s.position

abbrev pub is_some {ℓ} : {A : Type ℓ} → Option A → Bool
is_some none = false
is_some (some a) = true

abbrev pub position_or_zero : Option ℕ → ℕ
position_or_zero none = 0
position_or_zero (some position) = position

module _ {T : Type 0} where
  unfoldable pub emit_event : ℕ → TopologyPolicyAction → Bool → String → ℕ → Master T → Master T
  unfolding append_recovery_event map_topology_action to_string
  emit_event position action success reason generation m =
      append_recovery_event
        (record {
          cycle_index = m.statistics.cycles_total;
          slave_position = position;
          al_status_code = 0;
          action = map_topology_action action;
          success = success;
          message = "topology_generation=" <> (to_string generation <> (" " <> reason));
        })
        m

  -- The counters and latches, and the redundancy's fault and its end.
  unfoldable pub observe : Bool → Bool → Bool → Master T → Master T
  observe has_missing has_hot_connected healthy m = record m {
    redundancy_status = record (m.redundancy_status) { redundancy_healthy = healthy };
    missing_condition_cycles = if has_missing then next64 m.missing_condition_cycles else 0;
    hot_connect_condition_cycles =
        if has_hot_connected then next64 m.hot_connect_condition_cycles else 0;
    redundancy_condition_cycles = if healthy then 0 else next64 m.redundancy_condition_cycles;
    missing_policy_latched = if has_missing then m.missing_policy_latched else false;
    hot_connect_policy_latched = if has_hot_connected then m.hot_connect_policy_latched else false;
    redundancy_policy_latched = if healthy then false else m.redundancy_policy_latched;
  }

  unfoldable pub track_fault : Bool → ℕ → Master T → Master T
  unfolding transition_redundancy_state
  track_fault healthy generation m =
      if not healthy && not m.redundancy_fault_active
      then transition_redundancy_state redundancy_degraded "redundancy down detected" generation
          (record m {
            redundancy_fault_active = true;
            redundancy_kpis = record (m.redundancy_kpis) {
              degrade_events = next64 m.redundancy_kpis.degrade_events;
            };
          })
      else if healthy && m.redundancy_fault_active
      then transition_redundancy_state recovering "redundancy link restored" generation (record m {
        redundancy_fault_active = false;
        redundancy_kpis = record (m.redundancy_kpis) {
          recover_events = next64 m.redundancy_kpis.recover_events;
        };
      })
      else m

  -- The redundancy is healthy again.
  unfoldable pub settle : Bool → ℕ → Master T → Master T
  unfolding transition_redundancy_state same_redundancy
  settle healthy generation m =
      if healthy && same_redundancy m.redundancy_status.state recovering
      then transition_redundancy_state redundant_healthy "redundancy healthy" generation m
      else m

module _ {T : Type 0} (io : Transport T) (host : Host T) where
  -- What the three conditions do in the same way, each with its name in the texts.
  unfoldable pub act : String → ℕ → TopologyPolicyAction → ℕ → Master T → Master T
  unfolding emit_event recover_network
  act name position monitor generation m =
      emit_event position monitor true (name <> " monitor") generation m
  act name position retry generation m =
      let (after, ok) = recover_network io host m in
      emit_event position retry ok
        (name <> (if ok then " retry recovery succeeded" else " retry recovery failed")) generation
        after
  act name position reconfigure generation m =
      let (after, ok) = recover_network io host m in
      emit_event position reconfigure ok
        (name <> (if ok then " reconfigure recovery succeeded" else " reconfigure recovery failed"))
        generation after
  act name position degrade generation m =
      emit_event position degrade true (name <> " degraded") generation
        (record m { degraded = true })
  act name position fail_stop generation m =
      emit_event position fail_stop true (name <> " fail-stop") generation
        (record m { degraded = true; started = false; transport = io.close_transport m.transport })

  unfoldable pub answer_missing : Option ℕ → ℕ → Master T → Master T
  unfolding act
  answer_missing first generation m =
      let o = m.topology_recovery_options in
      if is_some first
        && not m.missing_policy_latched
        && leb o.missing_grace_cycles m.missing_condition_cycles
      then record (act "missing-slave" (position_or_zero first) o.missing_slave_action generation
          m) { missing_policy_latched = true }
      else m

  unfoldable pub answer_hot_connect : Option ℕ → ℕ → Master T → Master T
  unfolding act
  answer_hot_connect first generation m =
      let o = m.topology_recovery_options in
      if is_some first
        && not m.hot_connect_policy_latched
        && leb o.hot_connect_grace_cycles m.hot_connect_condition_cycles
      then record (act "hot-connect" (position_or_zero first) o.hot_connect_action generation m) {
        hot_connect_policy_latched = true;
      }
      else m

  unfoldable pub answer_redundancy : Bool → ℕ → Master T → Master T
  unfolding act
  answer_redundancy healthy generation m =
      let o = m.topology_recovery_options in
      if not healthy
        && not m.redundancy_policy_latched
        && leb o.redundancy_grace_cycles m.redundancy_condition_cycles
      then record (act "redundancy-down" 0 o.redundancy_action generation m) {
        redundancy_policy_latched = true;
      }
      else m

  unfoldable pub apply_topology_policy :
      List SlaveIdentity → List SlaveIdentity → Bool → ℕ → Master T → Master T
  unfolding observe track_fault answer_missing answer_hot_connect answer_redundancy settle
  apply_topology_policy missing hot_connected healthy generation m =
      let seen = track_fault healthy generation (
        observe (is_some (first_position missing)) (is_some (first_position hot_connected)) healthy
          m) in
      settle healthy generation (
        answer_redundancy healthy generation (
          answer_hot_connect (first_position hot_connected) generation
            (answer_missing (first_position missing) generation seen)))

  unfoldable pub refresh_topology : String → Master T → Master T × (Bool × String)
  unfolding refresh apply_topology_policy transition_redundancy_state manager_missing
      manager_hot_connected
  refresh_topology error m =
      let (after, (manager, (ok, message))) = refresh io error m.topology m.transport in
      let scanned = record m { transport = after; topology = manager } in
      let healthy = manager.changes.redundancy_healthy in
      let generation = manager.changes.generation in
      let noted = record scanned {
        redundancy_status = record (m.redundancy_status) { redundancy_healthy = healthy };
      } in
      if not ok
      then (scanned, (false, message))
      else if not m.topology_recovery_options.enable
      then (
        transition_redundancy_state (if healthy then redundant_healthy else redundancy_degraded)
            (if healthy
              then "redundancy healthy (policy disabled)"
              else "redundancy degraded (policy disabled)")
            generation noted,
        (true, message),
      )
      else (
        apply_topology_policy (manager_missing manager m.config.slaves)
            (manager_hot_connected manager m.config.slaves) healthy generation noted,
        (true, message),
      )
