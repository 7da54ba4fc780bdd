-- ===== src/Mock/Services.antt =====
-- The mailbox services of the simulated network, its topology, and the whole as a transport.
use Prim.Native.Nat.{bit_xor}
use openethercat.Base.{
  ℕ, ◌+◌, ◌*◌, Bool, true, false, not, List, [], ◌∷◌, ◌++◌, Option, none, some, String,
  if◌then◌else◌, ◌==◌,
}
use openethercat.Base.Maps.{find, put, nat_key}
use openethercat.Mailbox.{EmergencyMessage}
use openethercat.Sdo.{SdoAddress}
use openethercat.Topology.{Snapshot}
use openethercat.Transport.{Transport, SdoCall, PdoMappingEntry, FoeRequest, FoeResponse}
use openethercat.Mock.{
  MockTransport, open_mock, close_mock, exchange_mock, request_network_state_mock,
  read_network_state_mock, request_slave_state_mock, read_slave_state_mock,
  read_slave_al_status_code_mock, reconfigure_slave_mock, failover_slave_mock,
}

-- Slave position, index and subindex in one number.
unfoldable pub sdo_key : ℕ → SdoAddress → ℕ
sdo_key position address = position * 4294967296 + address.index * 256 + address.sub_index

abbrev sdo_refused : SdoCall → MockTransport → MockTransport × SdoCall
sdo_refused call m = (m, record call { ok = false; error = "not opened" })

unfoldable pub sdo_upload_mock : ℕ → SdoAddress → SdoCall → MockTransport → MockTransport × SdoCall
unfolding find sdo_key
sdo_upload_mock position address call m =
    if not m.opened
    then sdo_refused call m
    else elim (find (sdo_key position address) m.sdo_objects) [
      | none ↦ (m, record call { ok = false; abort_code = 0x06020000 })
      | some object ↦ (m, record call { ok = true; abort_code = 0; bytes = object })
    ]

unfoldable pub sdo_download_mock :
    ℕ → SdoAddress → List ℕ → SdoCall → MockTransport → MockTransport × SdoCall
unfolding put sdo_key
sdo_download_mock position address bytes call m = if not m.opened then sdo_refused call m else (
  record m { sdo_objects = put (sdo_key position address) bytes m.sdo_objects },
  record call { ok = true; abort_code = 0 },
)

-- The assigned object's index is not looked at.
unfoldable pub configure_pdo_mock :
    ℕ → ℕ → List PdoMappingEntry → String → MockTransport → MockTransport × (Bool × String)
unfolding put
configure_pdo_mock position assign_index entries error m =
    if not m.opened
    then (m, (false, "not opened"))
    else (record m { pdo_assignments = put position entries m.pdo_assignments }, (true, error))

unfoldable pub poll_emergency_mock : MockTransport → MockTransport × Option EmergencyMessage
poll_emergency_mock m = if not m.opened then (m, none) else elim m.emergencies [
  | [] ↦ (m, none)
  | e ∷ rest ↦ (record m { emergencies = rest }, some e)
]

unfoldable pub discover_topology_mock :
    String → MockTransport → MockTransport × (Option Snapshot × String)
discover_topology_mock error m = if not m.opened then (m, (none, "not opened")) else (
  m,
  (
    some (record { slaves = m.discovered_slaves; redundancy_healthy = m.redundancy_healthy }),
    error,
  ),
)

unfoldable pub is_redundancy_link_healthy_mock :
    String → MockTransport → MockTransport × (Bool × String)
is_redundancy_link_healthy_mock error m =
    if not m.opened then (m, (false, "not opened")) else (m, (m.redundancy_healthy, error))

unfoldable pub eoe_send_mock : ℕ → List ℕ → String → MockTransport → MockTransport × (Bool × String)
eoe_send_mock position frame error m =
    if not m.opened
    then (m, (false, "not opened"))
    else (record m { eoe_frames = m.eoe_frames ++ ((position, frame) ∷ []) }, (true, error))

-- A frame for another slave stays at the head of the queue.
unfoldable pub eoe_receive_mock :
    ℕ → List ℕ → String → MockTransport → MockTransport × (Bool × (List ℕ × String))
eoe_receive_mock position frame error m =
    if not m.opened then (m, (false, (frame, "not opened"))) else elim m.eoe_frames [
      | [] ↦ (m, (false, (frame, error)))
      | next ∷ rest ↦
          if not (next.0 == position)
          then (m, (false, (frame, error)))
          else (record m { eoe_frames = rest }, (true, (next.1, error)))
    ]

module _ (hash : String → ℕ) where
  unfoldable pub foe_key : ℕ → FoeRequest → ℕ
  foe_key position request = bit_xor (position * 4294967296) (hash request.file_name)

  unfoldable pub foe_read_mock :
      ℕ
      → FoeRequest
      → FoeResponse
      → String
      → MockTransport
      → MockTransport × (Bool × (FoeResponse × String))
  unfolding find foe_key
  foe_read_mock position request response error m =
      if not m.opened
      then (m, (false, (response, "not opened")))
      else elim (find (foe_key position request) m.foe_files) [
        | none ↦
            (m, (false, (record response { success = false; error = "FoE file not found" }, error)))
        | some file ↦
            (m, (true, (record response { success = true; bytes = file; error = "" }, error)))
      ]

  unfoldable pub foe_write_mock :
      ℕ → FoeRequest → List ℕ → String → MockTransport → MockTransport × (Bool × String)
  unfolding put foe_key
  foe_write_mock position request bytes error m =
      if not m.opened then (m, (false, "not opened")) else (
        record m { foe_files = put (foe_key position request) bytes m.foe_files },
        (true, error),
      )

  -- What `MockTransport` does not override is `ITransport`'s own.
  unfoldable pub mock : Transport MockTransport
  mock = record {
    open_transport = open_mock;
    close_transport = close_mock;
    exchange = exchange_mock;
    last_error = MockTransport.error;
    last_working_counter = MockTransport.last_working_counter;
    request_network_state = request_network_state_mock;
    read_network_state = read_network_state_mock;
    request_slave_state = request_slave_state_mock;
    read_slave_state = read_slave_state_mock;
    read_slave_al_status_code = read_slave_al_status_code_mock;
    reconfigure_slave = reconfigure_slave_mock;
    failover_slave = failover_slave_mock;
    sdo_upload = sdo_upload_mock;
    sdo_download = sdo_download_mock;
    configure_pdo = configure_pdo_mock;
    poll_emergency = poll_emergency_mock;
    discover_topology = discover_topology_mock;
    is_redundancy_link_healthy = is_redundancy_link_healthy_mock;
    configure_process_image = λ config error m. (m, (true, error));
    foe_read = foe_read_mock;
    foe_write = foe_write_mock;
    eoe_send = eoe_send_mock;
    eoe_receive = eoe_receive_mock;
  }
