-- ===== src/Transport.antt =====
-- include/openethercat/transport/i_transport.hpp as an interface over a state `T` that an
-- implementation chooses, with the argument types from include/openethercat/master/coe_mailbox.hpp and
-- include/openethercat/master/foe_eoe.hpp. An out parameter is a result; where the callee may leave it
-- as it was, its old value is an argument as well.
use openethercat.Base.{ℕ, Bool, List, Option, String}
use openethercat.Config.{NetworkConfiguration}
use openethercat.Mailbox.{EmergencyMessage}
use openethercat.Sdo.{SdoAddress}
use openethercat.SlaveState.{SlaveState}
use openethercat.Topology.{Snapshot}

pub record PdoMappingEntry : Type 0 where
  pub index : ℕ
  pub sub_index : ℕ
  pub bit_length : ℕ

pub record FoeRequest : Type 0 where
  pub file_name : String
  pub password : ℕ
  pub max_chunk_bytes : ℕ

pub record FoeResponse : Type 0 where
  pub success : Bool
  pub bytes : List ℕ
  pub error : String

-- What an SDO call gives back: its result and the out parameters.
pub record SdoCall : Type 0 where
  pub ok : Bool
  pub bytes : List ℕ
  pub abort_code : ℕ
  pub error : String

pub record Transport (T : Type 0) : Type 0 where
  pub open_transport : T → T × Bool
  pub close_transport : T → T
  -- The bytes received, if the exchange succeeds.
  pub exchange : List ℕ → List ℕ → T → T × Option (List ℕ)
  pub last_error : T → String
  pub last_working_counter : T → ℕ
  pub request_network_state : SlaveState → T → T × Bool
  pub read_network_state : T → T × Option SlaveState
  pub request_slave_state : ℕ → SlaveState → T → T × Bool
  pub read_slave_state : ℕ → T → T × Option SlaveState
  pub read_slave_al_status_code : ℕ → T → T × Option ℕ
  pub reconfigure_slave : ℕ → T → T × Bool
  pub failover_slave : ℕ → T → T × Bool
  pub sdo_upload : ℕ → SdoAddress → SdoCall → T → T × SdoCall
  pub sdo_download : ℕ → SdoAddress → List ℕ → SdoCall → T → T × SdoCall
  pub configure_pdo : ℕ → ℕ → List PdoMappingEntry → String → T → T × (Bool × String)
  pub poll_emergency : T → T × Option EmergencyMessage
  pub discover_topology : String → T → T × (Option Snapshot × String)
  pub is_redundancy_link_healthy : String → T → T × (Bool × String)
  pub configure_process_image : NetworkConfiguration → String → T → T × (Bool × String)
  pub foe_read : ℕ → FoeRequest → FoeResponse → String → T → T × (Bool × (FoeResponse × String))
  pub foe_write : ℕ → FoeRequest → List ℕ → String → T → T × (Bool × String)
  pub eoe_send : ℕ → List ℕ → String → T → T × (Bool × String)
  pub eoe_receive : ℕ → List ℕ → String → T → T × (Bool × (List ℕ × String))
