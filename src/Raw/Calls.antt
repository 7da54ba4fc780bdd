-- ===== src/Raw/Calls.antt =====
-- foeRead, foeWrite, eoeSend and eoeReceive of src/transport/linux_raw_socket_transport_foe_eoe.cpp.
use openethercat.Base.{
  ℕ, ◌-◌, min, Bool, true, false, not, List, [], Option, none, some, String, if◌then◌else◌, ltb,
}
use openethercat.Raw.{RawTransport, System, done, failed}
use openethercat.Raw.Datagram.{to_auto_increment_address}
use openethercat.Raw.Exchange.{is_some}
use openethercat.Raw.Files.{
  mailbox_type_eoe, foe_request, foe_frame, renamed, too_large, with_diagnostics, fail_read,
  fail_write, send, wait, read_packets, write_accepted,
}
use openethercat.Raw.Frames.{
  resolve_mailbox_window, mailbox_write_frame, mailbox_read_frame_expected,
}
use openethercat.Topology.Manager.{next64}
use openethercat.Transport.{FoeRequest, FoeResponse}

module _ {N : Type 0} where
  unfoldable pub fail_send : String → RawTransport N → RawTransport N × (Bool × String)
  fail_send why t = (
    with_diagnostics (λ d. record d { eoe_send_failed = next64 d.eoe_send_failed }) t,
    (false, why),
  )

  unfoldable pub fail_receive :
      String → RawTransport N → RawTransport N × (Bool × (List ℕ × String))
  fail_receive why t = (
    with_diagnostics (λ d. record d { eoe_receive_failed = next64 d.eoe_receive_failed }) t,
    (false, ([], why)),
  )

module _ {N : Type 0} (sys : System N) (over : ℕ → ℕ) where
  unfoldable pub foe_read_raw :
      ℕ
      → ℕ
      → FoeRequest
      → RawTransport N
      → Option (RawTransport N × (Bool × (FoeResponse × String)))
  unfolding resolve_mailbox_window to_auto_increment_address send foe_request fail_read read_packets
  foe_read_raw fuel position request t =
      let started =
        with_diagnostics (λ d. record d { foe_read_started = next64 d.foe_read_started }) t in
      let (resolved, (w, text)) =
        resolve_mailbox_window sys over (to_auto_increment_address position) started in
      let (sent, (counter, refusal)) = send sys over position w (foe_request 1 request) resolved in
      let max_data : ℕ =
        if ltb 12 w.read_size
        then w.read_size - 12
        else if ltb request.max_chunk_bytes 16
        then 16
        else request.max_chunk_bytes in
      if not (is_some t.socket_fd)
      then some (fail_read [] "transport not open" started)
      else elim refusal [
        | some why ↦ some (fail_read [] (too_large why) sent)
        | none ↦ read_packets sys over position w fuel max_data text counter 1 [] sent
      ]

  unfoldable pub foe_write_raw :
      ℕ → ℕ → FoeRequest → List ℕ → RawTransport N → Option (RawTransport N × (Bool × String))
  unfolding resolve_mailbox_window to_auto_increment_address send foe_request fail_write wait
      write_accepted
  foe_write_raw fuel position request bytes t =
      let started =
        with_diagnostics (λ d. record d { foe_write_started = next64 d.foe_write_started }) t in
      let (resolved, (w, text)) =
        resolve_mailbox_window sys over (to_auto_increment_address position) started in
      let (sent, (counter, refusal)) = send sys over position w (foe_request 2 request) resolved in
      let max_data : ℕ =
        if ltb 12 w.write_size
        then min request.max_chunk_bytes (w.write_size - 12)
        else min request.max_chunk_bytes 256 in
      if not (is_some t.socket_fd)
      then some (fail_write "transport not open" started)
      else elim refusal [
        | some why ↦ some (fail_write (too_large why) sent)
        | none ↦
            write_accepted sys over position w fuel max_data bytes text
              (wait sys over position w (foe_frame counter false) sent)
      ]

  unfoldable pub eoe_send_raw : ℕ → List ℕ → RawTransport N → RawTransport N × (Bool × String)
  unfolding resolve_mailbox_window to_auto_increment_address mailbox_write_frame fail_send
  eoe_send_raw position frame t =
      let started =
        with_diagnostics (λ d. record d { eoe_send_started = next64 d.eoe_send_started }) t in
      let (resolved, (w, text)) =
        resolve_mailbox_window sys over (to_auto_increment_address position) started in
      let (sent, (counter, refusal)) =
        mailbox_write_frame sys over (to_auto_increment_address position) w mailbox_type_eoe frame
          resolved in
      if not (is_some t.socket_fd) then fail_send "transport not open" started else elim refusal [
        | some why ↦ fail_send (renamed "EoE frame exceeds mailbox write window" why) sent
        | none ↦ (sent, (true, text))
      ]

  unfoldable pub eoe_receive_raw : ℕ → RawTransport N → RawTransport N × (Bool × (List ℕ × String))
  unfolding resolve_mailbox_window to_auto_increment_address mailbox_read_frame_expected
      fail_receive
  eoe_receive_raw position t =
      let started =
        with_diagnostics (λ d. record d { eoe_receive_started = next64 d.eoe_receive_started }) t in
      let (resolved, (w, text)) =
        resolve_mailbox_window sys over (to_auto_increment_address position) started in
      let (got, outcome) =
        mailbox_read_frame_expected sys over (to_auto_increment_address position) position w
          (record {
            counter = 0;
            type = mailbox_type_eoe;
            enforce_counter = false;
            drain_emergencies = false;
            timeout_error = "Timed out waiting for EoE mailbox frame";
          })
          resolved in
      if not (is_some t.socket_fd)
      then fail_receive "transport not open" started
      else elim outcome [
        | failed why ↦ fail_receive why got
        | done frame ↦ (got, (true, (frame.payload, text)))
      ]
