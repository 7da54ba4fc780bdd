-- ===== src/Master/Runs.antt =====
-- The theorems about the master on the simulated network, with one drive that watches an input.
use openethercat.Base.{ℕ, ◌≡◌, arith, refl, true, false, [], ◌∷◌, String, none}
use openethercat.Config.{NetworkConfiguration, SlaveIdentity, SignalBinding, input, output}
use openethercat.Config.Validity.{IsValid}
use openethercat.Diagnostics.{failover}
use openethercat.Mock.{
  MockTransport, new_mock, open_mock, request_network_state_mock, read_network_state_mock,
}
use openethercat.Mock.Services.{mock}
use openethercat.Topology.Manager.{next64}
use openethercat.Master.{Master, RecoveryEvent, new_master}
use openethercat.Master.Wait.{Host}
use openethercat.Master.Startup.{configure, start}
use openethercat.Master.Recovery.{recover_network}
use openethercat.Master.Cycle.{run_cycle}
use openethercat.Master.Kept.{IsKept, recover_network-IsKept}
use openethercat.Master.Counting.{run_cycle-IsCounted}
use openethercat.Master.History.{IsSound}
use openethercat.Master.Reachable.{Reachable, fresh, after_step, configures, starts}
use openethercat.Master.Ladder.{IsUp, start-IsUp}
use openethercat.Master.Starting.{RunsInOp, start-RunsInOp}
use openethercat.Master.Simulated.{run_cycle-Exchanged}
use openethercat.Master.Policy.{apply_topology_policy}
use openethercat.Master.Conditions.{conditions, next_conditions}
use openethercat.Master.Latch.{apply_topology_policy-conditions}
use openethercat.Master.Serving.{configure-serves}
use openethercat.Master.Invariant.{Reachable-IsSound}

abbrev no_hash : String → ℕ
no_hash s = 0

abbrev host : Host MockTransport
host = record {
  getenv = λ name. none;
  stoull = λ text. none;
  polls = λ timeout t. 3;
  reacts = λ callback value. ("lamp", value) ∷ [];
}

abbrev drive : SlaveIdentity
drive = record { name = "Drive"; alias = 0; position = 1; vendor_id = 2; product_code = 7 }

abbrev door : SignalBinding
door = record {
  logical_name = "door";
  direction = input;
  slave_name = "Drive";
  byte_offset = 0;
  bit_offset = 1;
}

abbrev lamp : SignalBinding
lamp = record {
  logical_name = "lamp";
  direction = output;
  slave_name = "Drive";
  byte_offset = 0;
  bit_offset = 0;
}

abbrev cell : NetworkConfiguration
cell = record { slaves = drive ∷ []; signals = door ∷ lamp ∷ []; input_bytes = 1; output_bytes = 1 }

abbrev idle : Master MockTransport
unfolding new_master new_mock
idle = new_master (new_mock 1 1)

abbrev configured : Master MockTransport
unfolding configure idle
configured = (configure cell idle).0

abbrev started : Master MockTransport
unfolding start configured mock
started = (start host (mock no_hash) configured).0

started_runs : (start host (mock no_hash) configured).1 ≡ true
unfolding start configured mock open_mock request_network_state_mock read_network_state_mock
started_runs = refl

run_cycle-IsCounted_example :
    (run_cycle (mock no_hash) host started).0.statistics.cycles_total
    ≡ next64 started.statistics.cycles_total
run_cycle-IsCounted_example = (run_cycle-IsCounted (mock no_hash) host started).total

recover_network-IsKept_example : IsKept started (recover_network (mock no_hash) host started).0
recover_network-IsKept_example = recover_network-IsKept (mock no_hash) host started

abbrev event : RecoveryEvent
event = record {
  cycle_index = 5;
  slave_position = 1;
  al_status_code = 0x14;
  action = failover;
  success = true;
  message = "Slave moved to failover/degraded mode";
}

started_Reachable :
    Reachable
      (mock no_hash)
      host
      (start host (mock no_hash) (configure cell (new_master (new_mock 1 1))).0).0
started_Reachable =
    after_step _ _
      (after_step _ _ (fresh (new_mock 1 1)) (configures cell (new_master (new_mock 1 1))))
      (starts (configure cell (new_master (new_mock 1 1))).0)

Reachable-IsSound_example :
    IsSound (start host (mock no_hash) (configure cell (new_master (new_mock 1 1))).0).0
Reachable-IsSound_example =
    Reachable-IsSound (mock no_hash) host
      (start host (mock no_hash) (configure cell (new_master (new_mock 1 1))).0).0 started_Reachable

start-IsUp_example : IsUp (mock no_hash) host (start host (mock no_hash) configured).0
unfolding configured configure
start-IsUp_example = start-IsUp (mock no_hash) host configured refl started_runs

run_cycle-Exchanged_example :
    (run_cycle (mock no_hash) host started).0.transport.last_outputs ≡ started.image.output
unfolding started start configured mock open_mock request_network_state_mock read_network_state_mock
run_cycle-Exchanged_example = (run_cycle-Exchanged no_hash host started refl refl refl refl).outputs

apply_topology_policy-conditions_example :
    conditions (apply_topology_policy (mock no_hash) host (drive ∷ []) [] true 7 started)
    ≡ next_conditions started.topology_recovery_options true false false (conditions started)
apply_topology_policy-conditions_example =
    (apply_topology_policy-conditions (mock no_hash) host (drive ∷ []) [] true 7 started).1

cell_accepted : (configure cell idle).1 ≡ true
unfolding configure idle
cell_accepted = refl

configure-serves_example : IsValid cell
configure-serves_example = (configure-serves cell idle).0.0 cell_accepted

start-RunsInOp_example :
    RunsInOp no_hash host (λ timeout t. omega arith) (start host (mock no_hash) configured)
unfolding configured configure
start-RunsInOp_example = start-RunsInOp no_hash host (λ timeout t. omega arith) configured refl refl
