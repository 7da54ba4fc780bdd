-- ===== src/Raw/Registers.antt =====
-- The AL state and distributed clock registers: src/transport/linux_raw_socket_transport_state_dc.cpp, with
-- reconfigureSlave and failoverSlave of src/transport/linux_raw_socket_transport.cpp. A 64-bit register is a number below 2 ^ 64,
-- and the signed time that it stands for is read from its top bit.
use openethercat.Base.{
  ℕ, ◌+◌, ◌-◌, ◌*◌, ◌/◌, ◌%◌, Bool, true, false, not, List, [], ◌∷◌, ◌++◌, Option, none, some,
  String, if◌then◌else◌, ltb, length, replicate,
}
use openethercat.Base.Bytes.{read_le16, read_le32, put_le32}
use openethercat.Clock.{ℤ, pos, negsuc}
use openethercat.Raw.{RawTransport, System, Outcome, done, failed, DcDiagnostics}
use openethercat.Raw.Datagram.{
  command_aprd, command_apwr, command_brd, command_bwr, to_auto_increment_address, send_next,
}
use openethercat.Raw.Exchange.{is_some}
use openethercat.SlaveState.{SlaveState, init, pre_op, safe_op, al_code, decode_al_state}
use openethercat.Topology.Manager.{next64}

abbrev register_al_control : ℕ
register_al_control = 0x0120

abbrev register_al_status : ℕ
register_al_status = 0x0130

abbrev register_al_status_code : ℕ
register_al_status_code = 0x0134

abbrev pub register_dc_system_time : ℕ
register_dc_system_time = 0x0910

abbrev pub register_dc_system_time_offset : ℕ
register_dc_system_time_offset = 0x0920

abbrev two_to_32 : ℕ
two_to_32 = 4294967296

-- Two's complement in 64 bits.
abbrev pub signed64 : ℕ → ℤ
signed64 n = if ltb n 9223372036854775808 then pos n else negsuc (18446744073709551615 - n)

abbrev pub unsigned64 : ℤ → ℕ
unsigned64 (pos n) = n % 18446744073709551616
unsigned64 (negsuc n) = 18446744073709551615 - n % 18446744073709551616

unfoldable pub read_le64_signed : (ℕ → ℕ) → List ℕ → ℕ → ℤ
unfolding read_le32
read_le64_signed over bytes offset =
    signed64 (read_le32 over bytes offset + read_le32 over bytes (offset + 4) * two_to_32)

unfoldable pub write_le64_signed : ℤ → List ℕ
unfolding put_le32
write_le64_signed value =
    put_le32 (unsigned64 value % two_to_32) ++ put_le32 (unsigned64 value / two_to_32)

module _ {N : Type 0} (sys : System N) (over : ℕ → ℕ) where
  -- A register written, of all slaves (`BWR`) or of one (`APWR`).
  unfoldable write_register : ℕ → ℕ → ℕ → List ℕ → RawTransport N → RawTransport N × Bool
  unfolding send_next
  write_register command adp ado payload t =
      let (sent, result) = send_next sys over command adp ado payload t in
      if not (is_some t.socket_fd)
      then (record t { error = "transport not open" }, false)
      else elim result [
        | failed why ↦ (record sent { error = why }, false)
        | done reply ↦ (record sent { last_working_counter = reply.working_counter }, true)
      ]

  -- Two bytes read, with what is made of them or the text of an error.
  unfoldable read_register {ℓ} :
      {A : Type ℓ}
      → String
      → (ℕ → Outcome A)
      → ℕ
      → ℕ
      → ℕ
      → RawTransport N
      → RawTransport N × Option A
  unfolding send_next read_le16
  read_register short decode command adp ado t =
      let (sent, result) = send_next sys over command adp ado (0 ∷ 0 ∷ []) t in
      if not (is_some t.socket_fd)
      then (record t { error = "transport not open" }, none)
      else elim result [
        | failed why ↦ (record sent { error = why }, none)
        | done reply ↦
            if ltb (length reply.payload) 2
            then (record sent { error = short }, none)
            else elim (decode (read_le16 over reply.payload 0)) [
              | failed why ↦ (record sent { error = why }, none)
              | done a ↦ (record sent { last_working_counter = reply.working_counter }, some a)
            ]
      ]

  abbrev al_state : ℕ → Outcome SlaveState
  unfolding decode_al_state
  al_state raw = elim (decode_al_state raw) [
    | none ↦ failed "unknown AL state value"
    | some state ↦ done state
  ]

  unfoldable request_network_state_raw : SlaveState → RawTransport N → RawTransport N × Bool
  unfolding write_register al_code
  request_network_state_raw state =
      write_register command_bwr 0 register_al_control (al_code state ∷ 0 ∷ [])

  unfoldable read_network_state_raw : RawTransport N → RawTransport N × Option SlaveState
  unfolding read_register al_state
  read_network_state_raw =
      read_register "state read payload too short" al_state command_brd 0 register_al_status

  unfoldable request_slave_state_raw : ℕ → SlaveState → RawTransport N → RawTransport N × Bool
  unfolding write_register al_code to_auto_increment_address
  request_slave_state_raw position state =
      write_register command_apwr (to_auto_increment_address position) register_al_control
        (al_code state ∷ 0 ∷ [])

  unfoldable read_slave_state_raw : ℕ → RawTransport N → RawTransport N × Option SlaveState
  unfolding read_register al_state to_auto_increment_address
  read_slave_state_raw position =
      read_register "state read payload too short" al_state command_aprd
        (to_auto_increment_address position) register_al_status

  unfoldable read_slave_al_status_code_raw : ℕ → RawTransport N → RawTransport N × Option ℕ
  unfolding read_register to_auto_increment_address
  read_slave_al_status_code_raw position =
      read_register "AL status code payload too short" done command_aprd
        (to_auto_increment_address position) register_al_status_code

  -- The three requests stop at the first that fails.
  unfoldable reconfigure_slave_raw : ℕ → RawTransport N → RawTransport N × Bool
  unfolding request_slave_state_raw
  reconfigure_slave_raw position t =
      let (t1, asked_init) = request_slave_state_raw position init t in
      let (t2, asked_pre_op) = request_slave_state_raw position pre_op t1 in
      if not asked_init
      then (t1, false)
      else if not asked_pre_op
      then (t2, false)
      else request_slave_state_raw position safe_op t2

  unfoldable failover_slave_raw : ℕ → RawTransport N → RawTransport N × Bool
  unfolding request_slave_state_raw
  failover_slave_raw position = request_slave_state_raw position safe_op

  abbrev dc_read_failed : DcDiagnostics → DcDiagnostics
  dc_read_failed d = record d { read_failure = next64 d.read_failure }

  -- The time, or the text of an error.
  unfoldable pub read_dc_system_time : ℕ → RawTransport N → RawTransport N × Outcome ℤ
  unfolding send_next to_auto_increment_address read_le64_signed
  read_dc_system_time position t =
      let d = record (t.dc_diagnostics) { read_attempts = next64 t.dc_diagnostics.read_attempts } in
      let started = record t { dc_diagnostics = d } in
      let (sent, result) =
        send_next sys over command_aprd (to_auto_increment_address position) register_dc_system_time
          (replicate 8 0) started in
      if not (is_some t.socket_fd)
      then (record t { dc_diagnostics = dc_read_failed d }, failed "transport not open")
      else elim result [
        | failed why ↦ (record sent { dc_diagnostics = dc_read_failed d }, failed why)
        | done reply ↦
            if ltb (length reply.payload) 8
            then (
              record sent {
                dc_diagnostics = record (dc_read_failed d) {
                  read_invalid_payload = next64 d.read_invalid_payload;
                };
              },
              failed "DC system time payload too short",
            )
            else (
              record sent {
                last_working_counter = reply.working_counter;
                dc_diagnostics = record d { read_success = next64 d.read_success };
              },
              done (read_le64_signed over reply.payload 0),
            )
      ]

  unfoldable pub write_dc_system_time_offset :
      ℕ → ℤ → RawTransport N → RawTransport N × Option String
  unfolding send_next to_auto_increment_address write_le64_signed
  write_dc_system_time_offset position offset_ns t =
      let d = record (t.dc_diagnostics) {
        write_attempts = next64 t.dc_diagnostics.write_attempts;
      } in
      let refused_write = record d { write_failure = next64 d.write_failure } in
      let (sent, result) =
        send_next sys over command_apwr (to_auto_increment_address position)
          register_dc_system_time_offset (write_le64_signed offset_ns)
          (record t { dc_diagnostics = d }) in
      if not (is_some t.socket_fd)
      then (record t { dc_diagnostics = refused_write }, some "transport not open")
      else elim result [
        | failed why ↦ (record sent { dc_diagnostics = refused_write }, some why)
        | done reply ↦ (
          record sent {
            last_working_counter = reply.working_counter;
            dc_diagnostics = record d { write_success = next64 d.write_success };
          },
          none,
        )
      ]
