-- ===== src/Master/Invariant.antt =====
-- The log of redundancy transitions over every operation of the master.
use openethercat.Base.{
  ℕ, Bool, not, ◌&&◌, List, Option, String, ◌<>◌, if_both, option_both, if◌then◌else◌, arith, leb,
  none, some,
}
use openethercat.Config.{SlaveIdentity}
use openethercat.SlaveState.{SlaveState, init, pre_op, safe_op, op}
use openethercat.Topology.Manager.{refresh, manager_missing, manager_hot_connected}
use openethercat.Transport.{Transport}
use openethercat.Master.{
  Master, TopologyPolicyAction, monitor, retry, reconfigure, degrade, fail_stop,
  redundancy_degraded, redundant_healthy,
}
use openethercat.Master.Log.{append_recovery_event, set_error}
use openethercat.Master.Options.{
  set_state_machine_options, set_recovery_action_override, clear_recovery_action_overrides,
  clear_recovery_events,
}
use openethercat.Master.Wait.{Host, transition_network_to}
use openethercat.Master.Startup.{climb, close_transport, ladder, start, stop}
use openethercat.Master.Environment.{configure_topology_recovery_from_environment, flag, number}
use openethercat.Master.Recovery.{collect_slave_diagnostics, recover_network}
use openethercat.Master.Cycle.{
  receive, run_dc_closed_loop_update, recover_from_failure, after_exchange, run_cycle,
}
use openethercat.Clock.Quality.{DcPolicyAction, warn, degrade, recover}
use openethercat.Master.Calls.{
  sdo_upload, sdo_download, configure_rx_pdo, configure_tx_pdo, drain_emergencies, foe_read_file,
  foe_write_file, eoe_send_frame, eoe_receive_frame, act_on_quality, update_distributed_clock,
}
use openethercat.Master.Policy.{
  observe, act, emit_event, answer_missing, answer_hot_connect, answer_redundancy,
  apply_topology_policy, refresh_topology, first_position, is_some, position_or_zero,
}
use openethercat.Master.Kept.{recover_network-IsKept, transition_network_to-IsKept}
use openethercat.Master.History.{IsSound, transition_redundancy_state-IsSound}
use openethercat.Master.Reachable.{Step, Reachable}
use openethercat.Master.Soundness.{
  at_least_one_lem, kept-IsSound, new_master-IsSound, configure-IsSound, dispatch-IsSound,
  dc-IsSound, track_fault-IsSound, settle-IsSound, set_output_by_name-IsSound,
  write_output_bytes-IsSound, on_input_change-IsSound, set_topology_recovery_options-IsSound,
  clear_redundancy_transitions-IsSound, set_recovery_options-IsSound,
}

module _ {T : Type 0} (io : Transport T) (host : Host T) where
  environment-IsSound :
      (m : Master T) → IsSound m → IsSound (configure_topology_recovery_from_environment host m)
  unfolding configure_topology_recovery_from_environment
  environment-IsSound m s = record {
    linked = tt;
    bounded = omega arith;
    keeps_one =
        at_least_one_lem
          (number host "OEC_TOPOLOGY_REDUNDANCY_HISTORY" m.max_redundancy_transition_history);
    keeps_one_event = s.keeps_one_event;
    waits_missing =
        at_least_one_lem (
          number host "OEC_TOPOLOGY_MISSING_GRACE"
            m.topology_recovery_options.missing_grace_cycles);
    waits_hot_connect = at_least_one_lem (
        number host "OEC_TOPOLOGY_HOTCONNECT_GRACE"
          m.topology_recovery_options.hot_connect_grace_cycles);
    waits_redundancy = at_least_one_lem (
        number host "OEC_TOPOLOGY_REDUNDANCY_GRACE"
          m.topology_recovery_options.redundancy_grace_cycles);
  }

  transition-IsSound :
      (target : SlaveState) (m : Master T)
      → IsSound m
      → IsSound (transition_network_to io host target m).0
  transition-IsSound target m = kept-IsSound m _ (transition_network_to-IsKept io host target m)

  climb-IsSound :
      (first second : SlaveState) (m : Master T)
      → IsSound m
      → IsSound (climb host io first second m).0
  unfolding climb
  climb-IsSound first second m s =
      let once = transition-IsSound first m s in
      if_both (λ (r : Master T × Bool). IsSound r.0) (transition_network_to io host first m).1
        (transition-IsSound second (transition_network_to io host first m).0 once) once

  ladder-IsSound : (m : Master T) → IsSound m → IsSound (ladder host io m).0
  unfolding ladder close_transport
  ladder-IsSound m s =
      let pre = climb host io init pre_op m in
      let sound = climb-IsSound init pre_op m s in
      let mapped = io.configure_process_image pre.0.config "" pre.0.transport in
      let configured = record (pre.0) { transport = mapped.0 } in
      let up = climb-IsSound safe_op op configured sound in
      if_both (λ (r : Master T × Bool). IsSound r.0) (not pre.1) sound
        (if_both (λ (r : Master T × Bool). IsSound r.0) (not mapped.1.0) sound
          (if_both (λ (r : Master T × Bool). IsSound r.0)
            (not (climb host io safe_op op configured).1) up up))

  start-IsSound : (m : Master T) → IsSound m → IsSound (start host io m).0
  unfolding start
  start-IsSound m s =
      let opened = io.open_transport m.transport in
      let ready = record m {
        transport = opened.0;
        dc_closed_loop_enabled = flag host "OEC_DC_CLOSED_LOOP" m.dc_closed_loop_enabled;
      } in
      if_both (λ (r : Master T × Bool). IsSound r.0) (not m.configured) s
        (if_both (λ (r : Master T × Bool). IsSound r.0) (not opened.1) s
          (if_both (λ (r : Master T × Bool). IsSound r.0) m.state_machine_options.enable
            (ladder-IsSound _ (environment-IsSound ready s)) (environment-IsSound ready s)))

  recover_network-IsSound : (m : Master T) → IsSound m → IsSound (recover_network io host m).0
  recover_network-IsSound m = kept-IsSound m _ (recover_network-IsKept io host m)

  run_cycle-IsSound : (m : Master T) → IsSound m → IsSound (run_cycle io host m).0
  unfolding run_cycle after_exchange recover_from_failure receive
  run_cycle-IsSound m s =
      let (after, received) = io.exchange m.image.output m.image.input m.transport in
      let exchanged = record m { transport = after } in
      let failing = set_error ("Transport exchange failed: " <> io.last_error after) exchanged in
      let recovered = recover_network-IsSound failing s in
      if_both (λ (r : Master T × (Bool × List (ℕ × Bool))). IsSound r.0) (not m.started) s
        (option_both (λ (r : Master T × (Bool × List (ℕ × Bool))). IsSound r.0) received
          (if_both IsSound m.recovery_options.enable
            (if_both IsSound (recover_network io host failing).1 recovered recovered) s)
          (λ rx.
            let updated = receive rx (io.last_working_counter after) exchanged in
            if_both (λ (r : Master T × (Bool × List (ℕ × Bool))). IsSound r.0)
              (not (run_dc_closed_loop_update updated).1) (dc-IsSound updated s)
              (dispatch-IsSound host (run_dc_closed_loop_update updated).0 (dc-IsSound updated s))))

  act-IsSound :
      (name : String) (position : ℕ) (a : TopologyPolicyAction) (generation : ℕ) (m : Master T)
      → IsSound m
      → IsSound (act io host name position a generation m)
  unfolding act emit_event append_recovery_event
  act-IsSound name position monitor generation m s = s
  act-IsSound name position retry generation m s = recover_network-IsSound m s
  act-IsSound name position reconfigure generation m s = recover_network-IsSound m s
  act-IsSound name position degrade generation m s = s
  act-IsSound name position fail_stop generation m s = s

  answer_missing-IsSound :
      (first : Option ℕ) (generation : ℕ) (m : Master T)
      → IsSound m
      → IsSound (answer_missing io host first generation m)
  unfolding answer_missing
  answer_missing-IsSound first generation m s =
      if_both IsSound
        (is_some first
          && not m.missing_policy_latched
          && leb m.topology_recovery_options.missing_grace_cycles m.missing_condition_cycles)
        (act-IsSound "missing-slave" (position_or_zero first)
          m.topology_recovery_options.missing_slave_action generation m s)
        s

  answer_hot_connect-IsSound :
      (first : Option ℕ) (generation : ℕ) (m : Master T)
      → IsSound m
      → IsSound (answer_hot_connect io host first generation m)
  unfolding answer_hot_connect
  answer_hot_connect-IsSound first generation m s =
      if_both IsSound
        (is_some first
          && not m.hot_connect_policy_latched
          && leb m.topology_recovery_options.hot_connect_grace_cycles
              m.hot_connect_condition_cycles)
        (act-IsSound "hot-connect" (position_or_zero first)
          m.topology_recovery_options.hot_connect_action generation m s)
        s

  answer_redundancy-IsSound :
      (healthy : Bool) (generation : ℕ) (m : Master T)
      → IsSound m
      → IsSound (answer_redundancy io host healthy generation m)
  unfolding answer_redundancy
  answer_redundancy-IsSound healthy generation m s =
      if_both IsSound
        (not healthy
          && not m.redundancy_policy_latched
          && leb m.topology_recovery_options.redundancy_grace_cycles m.redundancy_condition_cycles)
        (act-IsSound "redundancy-down" 0 m.topology_recovery_options.redundancy_action generation m
          s)
        s

  apply_topology_policy-IsSound :
      (missing hot_connected : List SlaveIdentity) (healthy : Bool) (generation : ℕ) (m : Master T)
      → IsSound m
      → IsSound (apply_topology_policy io host missing hot_connected healthy generation m)
  unfolding apply_topology_policy observe
  apply_topology_policy-IsSound missing hot_connected healthy generation m s =
      let seen =
        track_fault-IsSound healthy generation
          (observe (is_some (first_position missing)) (is_some (first_position hot_connected))
            healthy m)
          s in
      settle-IsSound healthy generation _ (
        answer_redundancy-IsSound healthy generation _ (
          answer_hot_connect-IsSound (first_position hot_connected) generation _
            (answer_missing-IsSound (first_position missing) generation _ seen)))

  refresh_topology-IsSound :
      (error : String) (m : Master T) → IsSound m → IsSound (refresh_topology io host error m).0
  unfolding refresh_topology
  refresh_topology-IsSound error m s =
      let (after, (manager, (ok, message))) = refresh io error m.topology m.transport in
      let healthy = manager.changes.redundancy_healthy in
      let noted = record m {
        transport = after;
        topology = manager;
        redundancy_status = record (m.redundancy_status) { redundancy_healthy = healthy };
      } in
      if_both (λ (r : Master T × (Bool × String)). IsSound r.0) (not ok) s
        (if_both (λ (r : Master T × (Bool × String)). IsSound r.0)
          (not m.topology_recovery_options.enable)
          (transition_redundancy_state-IsSound
            (if healthy then redundant_healthy else redundancy_degraded)
            (if healthy
              then "redundancy healthy (policy disabled)"
              else "redundancy degraded (policy disabled)")
            manager.changes.generation noted s)
          (apply_topology_policy-IsSound (manager_missing manager m.config.slaves)
            (manager_hot_connected manager m.config.slaves) healthy manager.changes.generation noted
            s))

  act_on_quality-IsSound :
      (action : Option DcPolicyAction) (m : Master T)
      → IsSound m
      → IsSound (act_on_quality io host action m)
  unfolding act_on_quality
  act_on_quality-IsSound none m s = s
  act_on_quality-IsSound (some warn) m s = s
  act_on_quality-IsSound (some degrade) m s = s
  act_on_quality-IsSound (some recover) m s =
      if_both IsSound m.started (recover_network-IsSound (set_error _ m) s) s

  Step-IsSound : (a b : Master T) → Step io host a b → IsSound a → IsSound b
  unfolding collect_slave_diagnostics set_state_machine_options set_recovery_action_override
      clear_recovery_action_overrides clear_recovery_events stop close_transport sdo_upload
      sdo_download configure_rx_pdo configure_tx_pdo drain_emergencies foe_read_file foe_write_file
      eoe_send_frame eoe_receive_frame update_distributed_clock
  Step-IsSound a b (Step.configures config m) s = configure-IsSound config m s
  Step-IsSound a b (Step.starts m) s = start-IsSound m s
  Step-IsSound a b (Step.stops m) s = if_both IsSound m.started s s
  Step-IsSound a b (Step.cycles m) s = run_cycle-IsSound m s
  Step-IsSound a b (Step.recovers m) s = recover_network-IsSound m s
  Step-IsSound a b (Step.collects m) s = s
  Step-IsSound a b (Step.refreshes error m) s = refresh_topology-IsSound error m s
  Step-IsSound a b (Step.sets_output name value m) s = set_output_by_name-IsSound name value m s
  Step-IsSound a b (Step.writes offset written m) s = write_output_bytes-IsSound offset written m s
  Step-IsSound a b (Step.registers name callback m) s = on_input_change-IsSound name callback m s
  Step-IsSound a b (Step.sets_state_machine o m) s = s
  Step-IsSound a b (Step.sets_recovery o m) s = set_recovery_options-IsSound o m s
  Step-IsSound a b (Step.sets_topology o m) s = set_topology_recovery_options-IsSound o m s
  Step-IsSound a b (Step.overrides code chosen m) s = s
  Step-IsSound a b (Step.clears_overrides m) s = s
  Step-IsSound a b (Step.clears_events m) s = s
  Step-IsSound a b (Step.clears_transitions m) s = clear_redundancy_transitions-IsSound m s
  Step-IsSound a b (Step.uploads p address m) s = s
  Step-IsSound a b (Step.downloads p address bytes m) s = s
  Step-IsSound a b (Step.configures_rx_pdo p entries error m) s = s
  Step-IsSound a b (Step.configures_tx_pdo p entries error m) s = s
  Step-IsSound a b (Step.drains max_messages m) s = s
  Step-IsSound a b (Step.reads_file p r m) s = s
  Step-IsSound a b (Step.writes_file p r bytes error m) s = s
  Step-IsSound a b (Step.sends_frame p frame error m) s = s
  Step-IsSound a b (Step.receives_frame p frame error m) s = s
  Step-IsSound a b (Step.clocks double index sample l m) s = act_on_quality-IsSound _ m s

  -- In every state that the master's operations lead to, in whatever order they are called, the log of
  -- redundancy transitions is linked: no entry is idle, each begins where the one before it ended, and
  -- the last ends in the present state. The log is bounded, and no bound or grace period is zero.
  pub Reachable-IsSound : (m : Master T) → Reachable io host m → IsSound m
  Reachable-IsSound m (Reachable.fresh t) = new_master-IsSound t
  Reachable-IsSound m (Reachable.after_step a b r step) =
      Step-IsSound a b step (Reachable-IsSound a r)
