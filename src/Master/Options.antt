-- ===== src/Master/Options.antt =====
-- The setters of src/master/ethercat_master.cpp. A bound of zero is raised to one.
use openethercat.Base.{ℕ, [], if◌then◌else◌, ◌==◌}
use openethercat.Base.Maps.{put, nat_key}
use openethercat.Diagnostics.{RecoveryAction}
use openethercat.Master.{Master, StateMachineOptions, RecoveryOptions, TopologyRecoveryOptions}

abbrev pub at_least_one : ℕ → ℕ
at_least_one n = if n == 0 then 1 else n

module _ {T : Type 0} where
  unfoldable pub set_state_machine_options : StateMachineOptions → Master T → Master T
  set_state_machine_options options m = record m { state_machine_options = options }

  unfoldable pub set_recovery_options : RecoveryOptions → Master T → Master T
  set_recovery_options options m = record m {
    recovery_options = record options {
      max_event_history = at_least_one options.max_event_history;
    };
  }

  unfoldable pub set_recovery_action_override : ℕ → RecoveryAction → Master T → Master T
  unfolding put
  set_recovery_action_override code action m = record m {
    recovery_action_overrides = put code action m.recovery_action_overrides;
  }

  unfoldable pub clear_recovery_action_overrides : Master T → Master T
  clear_recovery_action_overrides m = record m { recovery_action_overrides = [] }

  unfoldable pub clear_recovery_events : Master T → Master T
  clear_recovery_events m = record m { recovery_events = [] }

  unfoldable pub clear_redundancy_transitions : Master T → Master T
  clear_redundancy_transitions m = record m { redundancy_transitions = [] }

  unfoldable pub set_topology_recovery_options : TopologyRecoveryOptions → Master T → Master T
  set_topology_recovery_options options m = record m {
    topology_recovery_options = record options {
      missing_grace_cycles = at_least_one options.missing_grace_cycles;
      hot_connect_grace_cycles = at_least_one options.hot_connect_grace_cycles;
      redundancy_grace_cycles = at_least_one options.redundancy_grace_cycles;
    };
  }
