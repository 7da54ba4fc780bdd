-- ===== src/Master/Startup.antt =====
-- Configuring, starting and stopping in src/master/ethercat_master.cpp.
use openethercat.Base.{Bool, true, false, not, List, [], ◌∷◌, String, ◌<>◌, if◌then◌else◌}
use openethercat.Config.{
  NetworkConfiguration, SignalBinding, ValidationIssue, validate, has_errors, is_error,
}
use openethercat.Image.{zeroed_image}
use openethercat.Mapper.{empty_mapper, bind_signal}
use openethercat.SlaveState.{SlaveState, init, pre_op, safe_op, op}
use openethercat.Transport.{Transport}
use openethercat.Master.{Master, no_statistics, initial_status, no_kpis}
use openethercat.Master.Log.{set_error}
use openethercat.Master.Environment.{flag, configure_topology_recovery_from_environment}
use openethercat.Master.Wait.{Host, transition_network_to}

abbrev error_text : List ValidationIssue → String
error_text [] = ""
error_text (i ∷ rest) =
    let later = error_text rest in
    if is_error i.severity then " " <> (i.message <> (";" <> later)) else later

module _ {T : Type 0} where
  -- The state that `configure` clears first. The topology and the options are kept.
  unfoldable pub reset : NetworkConfiguration → Master T → Master T
  unfolding zeroed_image empty_mapper
  reset config m = record m {
    mapper = empty_mapper;
    config = config;
    image = zeroed_image config.input_bytes config.output_bytes;
    statistics = no_statistics;
    last_diagnostics = [];
    retry_counts = [];
    reconfigure_counts = [];
    recovery_events = [];
    degraded = false;
    missing_condition_cycles = 0;
    hot_connect_condition_cycles = 0;
    redundancy_condition_cycles = 0;
    missing_policy_latched = false;
    hot_connect_policy_latched = false;
    redundancy_policy_latched = false;
    redundancy_status = initial_status;
    redundancy_kpis = no_kpis;
    redundancy_fault_active = false;
    redundancy_transitions = [];
  }

  -- The signals in their order; the first that is not bound ends the loop.
  unfoldable pub bind_signals : List SignalBinding → Master T → Master T × Bool
  unfolding bind_signal
  bind_signals [] m = (record m { configured = true }, true)
  bind_signals (s ∷ rest) m =
      let (bound, ok) = bind_signal m.mapper s in
      elim ok [
        | true ↦ bind_signals rest (record m { mapper = bound })
        | false ↦ (
          record m {
            mapper = bound;
            error = "Duplicate logical signal name: " <> s.logical_name;
            configured = false;
          },
          false,
        )
      ]

  unfoldable pub configure : NetworkConfiguration → Master T → Master T × Bool
  unfolding reset bind_signals validate has_errors
  configure config m =
      if has_errors (validate config)
      then (
        record (reset config m) {
          error = "Configuration invalid:" <> error_text (validate config);
          configured = false;
        },
        false,
      )
      else bind_signals config.signals (reset config m)

module _ {T : Type 0} (host : Host T) (io : Transport T) where
  -- Two steps of the ladder, of which the second is taken only after the first.
  unfoldable pub climb : SlaveState → SlaveState → Master T → Master T × Bool
  unfolding transition_network_to
  climb first second m =
      let (after, ok) = transition_network_to io host first m in
      if ok then transition_network_to io host second after else (after, false)

  unfoldable pub close_transport : Master T → Master T
  close_transport m = record m { transport = io.close_transport m.transport }

  abbrev pub running : Master T → Master T
  running m = record m { degraded = false; started = true }

  unfoldable pub ladder : Master T → Master T × Bool
  unfolding climb close_transport
  ladder m =
      let (pre, pre_ok) = climb init pre_op m in
      if not pre_ok
      then (close_transport pre, false)
      else let (mapped, (ok, message)) = io.configure_process_image pre.config "" pre.transport in
        let configured = record pre { transport = mapped } in
        if not ok
        then (
          close_transport
              (set_error ("Failed to configure process image mapping: " <> message) configured),
          false,
        )
        else let (up, up_ok) = climb safe_op op configured in
          if not up_ok then (close_transport up, false) else (running up, true)

  unfoldable pub start : Master T → Master T × Bool
  unfolding ladder configure_topology_recovery_from_environment
  start m =
      if not m.configured
      then (set_error "Master not configured" m, false)
      else let (opened, ok) = io.open_transport m.transport in
        let after = record m { transport = opened } in
        if not ok
        then (set_error ("Transport open failed: " <> io.last_error opened) after, false)
        else let ready = configure_topology_recovery_from_environment host (record after {
          dc_closed_loop_enabled = flag host "OEC_DC_CLOSED_LOOP" m.dc_closed_loop_enabled;
        }) in
          if m.state_machine_options.enable then ladder ready else (running ready, true)

  unfoldable pub stop : Master T → Master T
  unfolding close_transport
  stop m = if m.started then record (close_transport m) { started = false } else m
