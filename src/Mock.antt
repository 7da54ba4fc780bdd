-- ===== src/Mock.antt =====
-- src/transport/mock_transport.cpp and include/openethercat/transport/mock_transport.hpp, the transport
-- that simulates a network. The queues are lists, first out first. `hash` stands for `std::hash` on
-- file names; the keys of SDO objects and files are the 64-bit numbers that the source computes.
pub mod Services
pub mod Inputs
pub mod Objects
pub mod Network
mod Runs
use Prim.Native.Nat.{bit_xor}
use openethercat.Base.{
  ℕ, zero, suc, ◌+◌, ◌-◌, ◌*◌, ◌%◌, ◌^◌, Bool, true, false, not, ◌||◌, List, [], ◌∷◌, ◌++◌, Option,
  none, some, String, if◌then◌else◌, ltb, leb, ◌==◌, length, set, take, drop, replicate,
}
use openethercat.Base.Bits.{test_bit, write_bit}
use openethercat.Base.Checked.{Checked, returns, throws}
use openethercat.Base.Maps.{find, put, nat_key}
use openethercat.Config.{NetworkConfiguration}
use openethercat.Image.{nth}
use openethercat.Mailbox.{EmergencyMessage}
use openethercat.Sdo.{SdoAddress}
use openethercat.SlaveState.{SlaveState, init, safe_op, op, same_state}
use openethercat.Topology.{SlaveInfo, Snapshot}
use openethercat.Transport.{Transport, SdoCall, PdoMappingEntry, FoeRequest, FoeResponse}

pub record MockTransport : Type 0 where
  pub inputs : List ℕ
  pub last_outputs : List ℕ
  pub last_working_counter : ℕ
  pub state : SlaveState
  pub per_slave_state : List (ℕ × SlaveState)
  pub per_slave_al_status_code : List (ℕ × ℕ)
  pub sdo_objects : List (ℕ × List ℕ)
  pub foe_files : List (ℕ × List ℕ)
  pub pdo_assignments : List (ℕ × List PdoMappingEntry)
  pub emergencies : List EmergencyMessage
  pub eoe_frames : List (ℕ × List ℕ)
  pub discovered_slaves : List SlaveInfo
  pub redundancy_healthy : Bool
  pub remaining_exchange_failures : ℕ
  pub opened : Bool
  pub error : String

unfoldable pub new_mock : ℕ → ℕ → MockTransport
new_mock input_bytes output_bytes = record {
  inputs = replicate input_bytes 0;
  last_outputs = replicate output_bytes 0;
  last_working_counter = 0;
  state = init;
  per_slave_state = [];
  per_slave_al_status_code = [];
  sdo_objects = [];
  foe_files = [];
  pdo_assignments = [];
  emergencies = [];
  eoe_frames = [];
  discovered_slaves = [];
  redundancy_healthy = true;
  remaining_exchange_failures = 0;
  opened = false;
  error = "";
}

unfoldable pub open_mock : MockTransport → MockTransport × Bool
open_mock m = (
  record m {
    opened = true;
    last_working_counter = 0;
    state = init;
    per_slave_state = [];
    per_slave_al_status_code = [];
    pdo_assignments = [];
    emergencies = [];
    eoe_frames = [];
    remaining_exchange_failures = 0;
    redundancy_healthy = true;
    discovered_slaves = [];
    error = "";
  },
  true,
)

unfoldable pub close_mock : MockTransport → MockTransport
close_mock m = record m { opened = false }

abbrev pub refused {ℓ} : {A : Type ℓ} → A → MockTransport → MockTransport × A
refused result m = (record m { error = "not opened" }, result)

unfoldable pub exchange_mock : List ℕ → List ℕ → MockTransport → MockTransport × Option (List ℕ)
exchange_mock tx rx m =
    if not m.opened
    then refused none m
    else if not (length tx == length m.last_outputs)
    then (record m { error = "unexpected TX process image size" }, none)
    else if ltb 0 m.remaining_exchange_failures
    then (
      record m {
        remaining_exchange_failures = m.remaining_exchange_failures - 1;
        error = "injected exchange failure";
      },
      none,
    )
    else (record m { last_outputs = tx; last_working_counter = 1 }, some m.inputs)

unfoldable pub request_network_state_mock : SlaveState → MockTransport → MockTransport × Bool
request_network_state_mock target m =
    if not m.opened then refused false m else (record m { state = target }, true)

unfoldable pub read_network_state_mock : MockTransport → MockTransport × Option SlaveState
read_network_state_mock m = if not m.opened then refused none m else (m, some m.state)

unfoldable pub request_slave_state_mock : ℕ → SlaveState → MockTransport → MockTransport × Bool
unfolding put same_state
request_slave_state_mock position target m = if not m.opened then refused false m else (
  record m {
    per_slave_state = put position target m.per_slave_state;
    per_slave_al_status_code =
        if same_state target op
        then put position 0 m.per_slave_al_status_code
        else m.per_slave_al_status_code;
  },
  true,
)

abbrev pub or_else {ℓ} : {A : Type ℓ} → A → Option A → A
or_else a none = a
or_else a (some b) = b

unfoldable pub read_slave_state_mock : ℕ → MockTransport → MockTransport × Option SlaveState
unfolding find
read_slave_state_mock position m =
    if not m.opened
    then refused none m
    else (m, some (or_else m.state (find position m.per_slave_state)))

unfoldable pub read_slave_al_status_code_mock : ℕ → MockTransport → MockTransport × Option ℕ
unfolding find
read_slave_al_status_code_mock position m =
    if not m.opened
    then refused none m
    else (m, some (or_else 0 (find position m.per_slave_al_status_code)))

unfoldable pub reconfigure_slave_mock : ℕ → MockTransport → MockTransport × Bool
unfolding put
reconfigure_slave_mock position m = if not m.opened then refused false m else (
  record m {
    per_slave_state = put position safe_op m.per_slave_state;
    per_slave_al_status_code = put position 0 m.per_slave_al_status_code;
  },
  true,
)

unfoldable pub failover_slave_mock : ℕ → MockTransport → MockTransport × Bool
unfolding put
failover_slave_mock position m = if not m.opened then refused false m else (
  record m {
    per_slave_state = put position safe_op m.per_slave_state;
    per_slave_al_status_code = put position 0x0014 m.per_slave_al_status_code;
  },
  true,
)
