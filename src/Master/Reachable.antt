-- ===== src/Master/Reachable.antt =====
-- The states that a master gets into: every operation of src/master/ethercat_master.cpp that
-- changes the state is a step. The clock's own state is any in the step that updates it.
use openethercat.Base.{ℕ, Bool, List, String}
use openethercat.Config.{NetworkConfiguration}
use openethercat.Diagnostics.{RecoveryAction}
use openethercat.Clock.Controller.{Doubles, DcSyncSample}
use openethercat.Clock.Loop.{DcLoop}
use openethercat.Sdo.{SdoAddress}
use openethercat.Transport.{Transport, PdoMappingEntry, FoeRequest}
use openethercat.Master.{
  Master, StateMachineOptions, RecoveryOptions, TopologyRecoveryOptions, new_master,
}
use openethercat.Master.Options.{
  set_state_machine_options, set_recovery_options, set_topology_recovery_options,
  set_recovery_action_override, clear_recovery_action_overrides, clear_recovery_events,
  clear_redundancy_transitions,
}
use openethercat.Master.Wait.{Host}
use openethercat.Master.Startup.{configure, start, stop}
use openethercat.Master.Recovery.{collect_slave_diagnostics, recover_network}
use openethercat.Master.Cycle.{run_cycle, set_output_by_name, write_output_bytes, on_input_change}
use openethercat.Master.Calls.{
  sdo_upload, sdo_download, configure_rx_pdo, configure_tx_pdo, drain_emergencies, foe_read_file,
  foe_write_file, eoe_send_frame, eoe_receive_frame, update_distributed_clock,
}
use openethercat.Master.Policy.{refresh_topology}

module _ {T : Type 0} (io : Transport T) (host : Host T) where
  pub data Step : Master T → Master T → Type 1 where
    configures : (config : NetworkConfiguration) (m : Master T) → Step m (configure config m).0
    starts : (m : Master T) → Step m (start host io m).0
    stops : (m : Master T) → Step m (stop host io m)
    cycles : (m : Master T) → Step m (run_cycle io host m).0
    recovers : (m : Master T) → Step m (recover_network io host m).0
    collects : (m : Master T) → Step m (collect_slave_diagnostics io m).0
    refreshes : (error : String) (m : Master T) → Step m (refresh_topology io host error m).0
    sets_output :
        (name : String) (value : Bool) (m : Master T) → Step m (set_output_by_name name value m).0
    writes :
        (offset : ℕ) (written : List ℕ) (m : Master T)
        → Step m (write_output_bytes offset written m).0
    registers :
        (name : String) (callback : ℕ) (m : Master T) → Step m (on_input_change name callback m).0
    sets_state_machine :
        (o : StateMachineOptions) (m : Master T) → Step m (set_state_machine_options o m)
    sets_recovery : (o : RecoveryOptions) (m : Master T) → Step m (set_recovery_options o m)
    sets_topology :
        (o : TopologyRecoveryOptions) (m : Master T) → Step m (set_topology_recovery_options o m)
    overrides :
        (code : ℕ) (a : RecoveryAction) (m : Master T)
        → Step m (set_recovery_action_override code a m)
    clears_overrides : (m : Master T) → Step m (clear_recovery_action_overrides m)
    clears_events : (m : Master T) → Step m (clear_recovery_events m)
    clears_transitions : (m : Master T) → Step m (clear_redundancy_transitions m)
    uploads : (p : ℕ) (a : SdoAddress) (m : Master T) → Step m (sdo_upload io p a m).0
    downloads :
        (p : ℕ) (a : SdoAddress) (bytes : List ℕ) (m : Master T)
        → Step m (sdo_download io p a bytes m).0
    configures_rx_pdo :
        (p : ℕ) (entries : List PdoMappingEntry) (error : String) (m : Master T)
        → Step m (configure_rx_pdo io p entries error m).0
    configures_tx_pdo :
        (p : ℕ) (entries : List PdoMappingEntry) (error : String) (m : Master T)
        → Step m (configure_tx_pdo io p entries error m).0
    drains : (max_messages : ℕ) (m : Master T) → Step m (drain_emergencies io max_messages m).0
    reads_file : (p : ℕ) (r : FoeRequest) (m : Master T) → Step m (foe_read_file io p r m).0
    writes_file :
        (p : ℕ) (r : FoeRequest) (bytes : List ℕ) (error : String) (m : Master T)
        → Step m (foe_write_file io p r bytes error m).0
    sends_frame :
        (p : ℕ) (frame : List ℕ) (error : String) (m : Master T)
        → Step m (eoe_send_frame io p frame error m).0
    receives_frame :
        (p : ℕ) (frame : List ℕ) (error : String) (m : Master T)
        → Step m (eoe_receive_frame io p frame error m).0
    clocks :
        {F : Type 0} (double : Doubles F) (index : ℕ → ℕ → ℕ) (sample : DcSyncSample) (l : DcLoop F)
        (m : Master T)
        → Step m (update_distributed_clock io host double index sample (l, m)).0.1

  pub data Reachable : Master T → Type 1 where
    fresh : (t : T) → Reachable (new_master t)
    after_step : (a b : Master T) → Reachable a → Step a b → Reachable b
