-- ===== src/Master/Soundness.antt =====
-- The log of redundancy transitions over the parts of the master that call no transport.
use openethercat.Base.{
  ℕ, ◌≤◌, sym, inl, inr, Bool, true, false, not, ◌&&◌, List, [], ◌∷◌, String, if_both, option_both,
  arith, Bool-cases, ltb, length, ◌-◌,
}
use mathlib.Core.Path.{subst}
use openethercat.Base.Checked.{returns, throws}
use openethercat.Config.{NetworkConfiguration, SignalBinding, validate, has_errors}
use openethercat.Mapper.{bind_signal, set_output, register_input_callback, dispatch_input_changes}
use openethercat.Topology.Manager.{next64}
use openethercat.Master.{
  Master, new_master, RecoveryOptions, TopologyRecoveryOptions, redundancy_degraded, recovering,
  redundant_healthy,
}
use openethercat.Master.Log.{same_redundancy}
use openethercat.Master.Options.{
  set_recovery_options, set_topology_recovery_options, clear_redundancy_transitions, at_least_one,
}
use openethercat.Master.Startup.{reset, bind_signals, configure}
use openethercat.Master.Cycle.{
  dispatch, react, run_dc_closed_loop_update, set_output_by_name, output_result, write_output_bytes,
  on_input_change,
}
use openethercat.Master.Reactions.{react-Stores}
use openethercat.Master.Wait.{Host}
use openethercat.Master.Policy.{track_fault, settle}
use openethercat.Master.Kept.{IsKept, kept_equation}
use openethercat.Master.History.{IsSound, transition_redundancy_state-IsSound}

pub at_least_one_lem : (n : ℕ) → 1 ≤ at_least_one n
at_least_one_lem n = ground arith

module _ {T : Type 0} where
  pub kept-IsSound : (a b : Master T) → IsKept a b → IsSound a → IsSound b
  kept-IsSound a b k s = rw (kept_equation a b k) s

  pub new_master-IsSound : (t : T) → IsSound (new_master t)
  unfolding new_master
  new_master-IsSound t = record {
    linked = tt;
    bounded = ground arith;
    keeps_one = ground arith;
    keeps_one_event = ground arith;
    waits_missing = ground arith;
    waits_hot_connect = ground arith;
    waits_redundancy = ground arith;
  }

  reset-IsSound :
      (config : NetworkConfiguration) (m : Master T) → IsSound m → IsSound (reset config m)
  unfolding reset
  reset-IsSound config m s = record {
    linked = tt;
    bounded = ground arith;
    keeps_one = s.keeps_one;
    keeps_one_event = s.keeps_one_event;
    waits_missing = s.waits_missing;
    waits_hot_connect = s.waits_hot_connect;
    waits_redundancy = s.waits_redundancy;
  }

  bind_signals-IsSound :
      (signals : List SignalBinding) (m : Master T) → IsSound m → IsSound (bind_signals signals m).0
  unfolding bind_signals
  bind_signals-IsSound [] m s = s
  bind_signals-IsSound (b ∷ rest) m s = elim (Bool-cases (bind_signal m.mapper b).1) [
    | inl bound ↦
        rw (bound, bind_signals)
          (bind_signals-IsSound rest (record m { mapper = (bind_signal m.mapper b).0 }) s)
    | inr again ↦ rw (again, bind_signals) s
  ]

  pub configure-IsSound :
      (config : NetworkConfiguration) (m : Master T) → IsSound m → IsSound (configure config m).0
  unfolding configure
  configure-IsSound config m s =
      if_both (λ (r : Master T × Bool). IsSound r.0) (has_errors (validate config))
        (reset-IsSound config m s)
        (bind_signals-IsSound config.signals (reset config m) (reset-IsSound config m s))

  pub dc-IsSound : (m : Master T) → IsSound m → IsSound (run_dc_closed_loop_update m).0
  unfolding run_dc_closed_loop_update
  dc-IsSound m s = if_both (λ (r : Master T × Bool). IsSound r.0) (not m.dc_closed_loop_enabled) s s

  pub track_fault-IsSound :
      (healthy : Bool) (generation : ℕ) (m : Master T)
      → IsSound m
      → IsSound (track_fault healthy generation m)
  unfolding track_fault
  track_fault-IsSound healthy generation m s =
      if_both IsSound (not healthy && not m.redundancy_fault_active)
        (transition_redundancy_state-IsSound redundancy_degraded "redundancy down detected"
          generation
          (record m {
            redundancy_fault_active = true;
            redundancy_kpis = record (m.redundancy_kpis) {
              degrade_events = next64 m.redundancy_kpis.degrade_events;
            };
          })
          s)
        (if_both IsSound (healthy && m.redundancy_fault_active)
          (transition_redundancy_state-IsSound recovering "redundancy link restored" generation
            (record m {
              redundancy_fault_active = false;
              redundancy_kpis = record (m.redundancy_kpis) {
                recover_events = next64 m.redundancy_kpis.recover_events;
              };
            })
            s)
          s)

  pub settle-IsSound :
      (healthy : Bool) (generation : ℕ) (m : Master T)
      → IsSound m
      → IsSound (settle healthy generation m)
  unfolding settle
  settle-IsSound healthy generation m s =
      if_both IsSound (healthy && same_redundancy m.redundancy_status.state recovering)
        (transition_redundancy_state-IsSound redundant_healthy "redundancy healthy" generation m s)
        s

  pub set_output_by_name-IsSound :
      (name : String) (value : Bool) (m : Master T)
      → IsSound m
      → IsSound (set_output_by_name name value m).0
  unfolding set_output_by_name
  set_output_by_name-IsSound name value m s =
      elim (set_output m.mapper m.image name value) as (λ o. IsSound (output_result name m o).0) [
        | throws message ↦ s
        | returns r ↦ if_both (λ (x : Master T × Bool). IsSound x.0) (not r.1) s s
      ]

  react-IsSound :
      (reacts : ℕ → Bool → List (String × Bool)) (calls : List (ℕ × Bool)) (m : Master T)
      → IsSound m
      → IsSound (react reacts calls m)
  react-IsSound reacts calls m s =
      let (error, same) = react-Stores reacts calls m in
      subst IsSound (sym same) (record {
        linked = s.linked;
        bounded = s.bounded;
        keeps_one = s.keeps_one;
        keeps_one_event = s.keeps_one_event;
        waits_missing = s.waits_missing;
        waits_hot_connect = s.waits_hot_connect;
        waits_redundancy = s.waits_redundancy;
      })

  pub dispatch-IsSound : (host : Host T) (m : Master T) → IsSound m → IsSound (dispatch host m).0
  unfolding dispatch
  dispatch-IsSound host m s =
      let (mapper, done) = dispatch_input_changes m.mapper m.image in
      let reacted = react-IsSound host.reacts done.calls (record m { mapper = mapper }) s in
      option_both (λ (r : Master T × (Bool × List (ℕ × Bool))). IsSound r.0) done.thrown reacted
        (λ message. reacted)

  pub write_output_bytes-IsSound :
      (offset : ℕ) (written : List ℕ) (m : Master T)
      → IsSound m
      → IsSound (write_output_bytes offset written m).0
  unfolding write_output_bytes
  write_output_bytes-IsSound offset written m s =
      if_both (λ (r : Master T × Bool). IsSound r.0) (ltb (length m.image.output) offset) s
        (if_both (λ (r : Master T × Bool). IsSound r.0)
          (ltb (length m.image.output - offset) (length written)) s s)

  pub on_input_change-IsSound :
      (name : String) (callback : ℕ) (m : Master T)
      → IsSound m
      → IsSound (on_input_change name callback m).0
  unfolding on_input_change
  on_input_change-IsSound name callback m s =
      if_both (λ (r : Master T × Bool). IsSound r.0)
        (not (register_input_callback m.mapper name callback).1) s s

  pub set_recovery_options-IsSound :
      (o : RecoveryOptions) (m : Master T) → IsSound m → IsSound (set_recovery_options o m)
  unfolding set_recovery_options
  set_recovery_options-IsSound o m s = record {
    linked = s.linked;
    bounded = s.bounded;
    keeps_one = s.keeps_one;
    keeps_one_event = at_least_one_lem o.max_event_history;
    waits_missing = s.waits_missing;
    waits_hot_connect = s.waits_hot_connect;
    waits_redundancy = s.waits_redundancy;
  }

  pub set_topology_recovery_options-IsSound :
      (o : TopologyRecoveryOptions) (m : Master T)
      → IsSound m
      → IsSound (set_topology_recovery_options o m)
  unfolding set_topology_recovery_options
  set_topology_recovery_options-IsSound o m s = record {
    linked = s.linked;
    bounded = s.bounded;
    keeps_one = s.keeps_one;
    keeps_one_event = s.keeps_one_event;
    waits_missing = at_least_one_lem o.missing_grace_cycles;
    waits_hot_connect = at_least_one_lem o.hot_connect_grace_cycles;
    waits_redundancy = at_least_one_lem o.redundancy_grace_cycles;
  }

  pub clear_redundancy_transitions-IsSound :
      (m : Master T) → IsSound m → IsSound (clear_redundancy_transitions m)
  unfolding clear_redundancy_transitions
  clear_redundancy_transitions-IsSound m s = record {
    linked = tt;
    bounded = omega arith;
    keeps_one = s.keeps_one;
    keeps_one_event = s.keeps_one_event;
    waits_missing = s.waits_missing;
    waits_hot_connect = s.waits_hot_connect;
    waits_redundancy = s.waits_redundancy;
  }
