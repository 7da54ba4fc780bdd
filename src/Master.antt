-- ===== src/Master.antt =====
-- The types and the state of include/openethercat/master/ethercat_master.hpp. Clock readings (time stamps, latencies, run
-- times) and the members of the distributed clock's closed loop are left out.
pub mod Log
pub mod Options
pub mod Wait
pub mod Environment
pub mod Startup
pub mod Recovery
pub mod Cycle
pub mod Policy
pub mod Kept
pub mod Reactions
pub mod Calls
pub mod Counting
pub mod History
pub mod Reachable
pub mod Soundness
pub mod Invariant
pub mod Serving
pub mod Ladder
pub mod Simulated
pub mod Starting
pub mod Conditions
pub mod Latch
mod Runs
use openethercat.Base.{
  ℕ, ◌+◌, ◌-◌, ◌%◌, Bool, true, false, not, List, [], ◌∷◌, ◌++◌, Option, none, some, String,
  if◌then◌else◌, ltb, ◌==◌, length, drop,
}
use openethercat.Base.Maps.{put, nat_key}
use openethercat.Config.{NetworkConfiguration}
use openethercat.Diagnostics.{RecoveryAction, SlaveDiagnostic}
use openethercat.Image.{ProcessImage, zeroed_image}
use openethercat.Mapper.{IoMapper, empty_mapper}
use openethercat.Topology.Manager.{TopologyManager, new_manager, next64}

pub data RedundancyState : Type 0 where
  primary_only redundant_healthy redundancy_degraded recovering : RedundancyState

pub data TopologyPolicyAction : Type 0 where
  monitor retry reconfigure degrade fail_stop : TopologyPolicyAction

pub record StateMachineOptions : Type 0 where
  pub enable : Bool
  pub transition_timeout : ℕ
  pub poll_interval_ms : ℕ

pub record RecoveryOptions : Type 0 where
  pub enable : Bool
  pub max_retries_per_slave : ℕ
  pub max_reconfigure_per_slave : ℕ
  pub stop_master_on_failover : Bool
  pub max_event_history : ℕ

pub record TopologyRecoveryOptions : Type 0 where
  pub enable : Bool
  pub missing_grace_cycles : ℕ
  pub hot_connect_grace_cycles : ℕ
  pub redundancy_grace_cycles : ℕ
  pub missing_slave_action : TopologyPolicyAction
  pub hot_connect_action : TopologyPolicyAction
  pub redundancy_action : TopologyPolicyAction

pub record RecoveryEvent : Type 0 where
  pub cycle_index : ℕ
  pub slave_position : ℕ
  pub al_status_code : ℕ
  pub action : RecoveryAction
  pub success : Bool
  pub message : String

pub record RedundancyStatus : Type 0 where
  pub state : RedundancyState
  pub redundancy_healthy : Bool
  pub transition_count : ℕ
  pub last_reason : String

pub record RedundancyKpis : Type 0 where
  pub degrade_events : ℕ
  pub recover_events : ℕ
  pub impacted_cycles : ℕ

pub record RedundancyTransition : Type 0 where
  pub cycle_index : ℕ
  pub topology_generation : ℕ
  pub before : RedundancyState
  pub after : RedundancyState
  pub reason : String

pub record CycleStatistics : Type 0 where
  pub cycles_total : ℕ
  pub cycles_failed : ℕ
  pub last_working_counter : ℕ

pub record Master (T : Type 0) : Type 0 where
  pub transport : T
  pub topology : TopologyManager
  pub mapper : IoMapper
  pub config : NetworkConfiguration
  pub image : ProcessImage
  pub configured : Bool
  pub started : Bool
  pub statistics : CycleStatistics
  pub state_machine_options : StateMachineOptions
  pub recovery_options : RecoveryOptions
  pub recovery_action_overrides : List (ℕ × RecoveryAction)
  pub last_diagnostics : List SlaveDiagnostic
  pub recovery_events : List RecoveryEvent
  pub retry_counts : List (ℕ × ℕ)
  pub reconfigure_counts : List (ℕ × ℕ)
  pub topology_recovery_options : TopologyRecoveryOptions
  pub missing_condition_cycles : ℕ
  pub hot_connect_condition_cycles : ℕ
  pub redundancy_condition_cycles : ℕ
  pub missing_policy_latched : Bool
  pub hot_connect_policy_latched : Bool
  pub redundancy_policy_latched : Bool
  pub redundancy_status : RedundancyStatus
  pub redundancy_kpis : RedundancyKpis
  pub redundancy_fault_active : Bool
  pub redundancy_transitions : List RedundancyTransition
  pub max_redundancy_transition_history : ℕ
  pub dc_closed_loop_enabled : Bool
  pub degraded : Bool
  pub error : String

abbrev pub no_statistics : CycleStatistics
no_statistics = record { cycles_total = 0; cycles_failed = 0; last_working_counter = 0 }

abbrev pub initial_status : RedundancyStatus
initial_status = record {
  state = primary_only;
  redundancy_healthy = true;
  transition_count = 0;
  last_reason = "";
}

abbrev pub no_kpis : RedundancyKpis
no_kpis = record { degrade_events = 0; recover_events = 0; impacted_cycles = 0 }

unfoldable pub new_master : {T : Type 0} → T → Master T
unfolding zeroed_image new_manager empty_mapper
new_master t = record {
  transport = t;
  topology = new_manager;
  mapper = empty_mapper;
  config = record { slaves = []; signals = []; input_bytes = 0; output_bytes = 0 };
  image = zeroed_image 0 0;
  configured = false;
  started = false;
  statistics = no_statistics;
  state_machine_options = record { enable = true; transition_timeout = 500; poll_interval_ms = 5 };
  recovery_options = record {
    enable = true;
    max_retries_per_slave = 3;
    max_reconfigure_per_slave = 1;
    stop_master_on_failover = false;
    max_event_history = 1024;
  };
  recovery_action_overrides = [];
  last_diagnostics = [];
  recovery_events = [];
  retry_counts = [];
  reconfigure_counts = [];
  topology_recovery_options = record {
    enable = false;
    missing_grace_cycles = 3;
    hot_connect_grace_cycles = 3;
    redundancy_grace_cycles = 2;
    missing_slave_action = degrade;
    hot_connect_action = monitor;
    redundancy_action = degrade;
  };
  missing_condition_cycles = 0;
  hot_connect_condition_cycles = 0;
  redundancy_condition_cycles = 0;
  missing_policy_latched = false;
  hot_connect_policy_latched = false;
  redundancy_policy_latched = false;
  redundancy_status = initial_status;
  redundancy_kpis = no_kpis;
  redundancy_fault_active = false;
  redundancy_transitions = [];
  max_redundancy_transition_history = 512;
  dc_closed_loop_enabled = false;
  degraded = false;
  error = "";
}
