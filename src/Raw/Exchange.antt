-- ===== src/Raw/Exchange.antt =====
-- The cyclic exchange of src/transport/linux_raw_socket_transport.cpp: outputs by a logical write, inputs
-- by a logical read, each on the second interface if the first fails. The lines that it prints are left
-- out; the reads of OEC_TRACE_OUTPUT_VERIFY are not.
use openethercat.Base.{
  ℕ, ◌+◌, ◌-◌, ◌/◌, ◌%◌, min, Bool, true, false, ◌&&◌, ◌||◌, not, List, [], ◌∷◌, Option, none, some,
  if◌then◌else◌, leb, ◌==◌, length, replicate,
}
use openethercat.Frame.{DatagramRequest}
use openethercat.Raw.{RawTransport, System, done, failed, ProcessDataWindow}
use openethercat.Raw.Datagram.{
  Reply, command_aprd, command_lrd, command_lwr, next8, to_auto_increment_address, transceive,
  send_next,
}

abbrev pub is_some {ℓ} : {A : Type ℓ} → Option A → Bool
is_some none = false
is_some (some a) = true

module _ {N : Type 0} (sys : System N) (over : ℕ → ℕ) where
  -- The second attempt, with the text of the first failure in `error`.
  unfoldable pub send_secondary : DatagramRequest → RawTransport N → RawTransport N × Option Reply
  unfolding transceive
  send_secondary request t =
      let (after, second) =
        transceive sys over t.secondary_socket_fd t.secondary_if_index request t in
      if t.redundancy_enabled && is_some t.secondary_socket_fd
      then elim second [
        | done reply ↦ (record t { system = after; last_frame_used_secondary = true }, some reply)
        | failed why ↦ (record t { system = after; error = why }, none)
      ]
      else (t, none)

  unfoldable pub send_primary_or_secondary :
      DatagramRequest → RawTransport N → RawTransport N × Option Reply
  unfolding transceive send_secondary
  send_primary_or_secondary request t =
      let (after, first) = transceive sys over t.socket_fd t.if_index request t in
      elim first [
        | done reply ↦ (record t { system = after; last_frame_used_secondary = false }, some reply)
        | failed why ↦ send_secondary request (record t { system = after; error = why })
      ]

  -- Only the effects of the check: what it finds is printed.
  unfoldable pub verify_outputs : List ℕ → List ProcessDataWindow → RawTransport N → RawTransport N
  unfolding send_next to_auto_increment_address
  verify_outputs tx [] t = t
  verify_outputs tx (w ∷ windows) t =
      let relative = (w.logical_start + 4294967296 - t.logical_address) % 4294967296 in
      let count = min w.window_length (length tx - relative) in
      let (sent, _) =
        send_next sys over command_aprd (to_auto_increment_address w.slave_position)
          w.physical_start (replicate count 0) t in
      verify_outputs tx windows (if leb (length tx) relative || count == 0 then t else sent)

  -- The requests of one exchange, with the index that the counter shows.
  unfoldable pub lwr_request : List ℕ → RawTransport N → DatagramRequest
  lwr_request tx t = record {
    command = command_lwr;
    datagram_index = t.datagram_index;
    adp = t.logical_address % 65536;
    ado = t.logical_address / 65536 % 65536;
    payload = tx;
  }

  unfoldable pub lrd_request : ℕ → RawTransport N → DatagramRequest
  lrd_request size t =
      let address = (t.logical_address + size) % 4294967296 in
      record {
        command = command_lrd;
        datagram_index = t.datagram_index;
        adp = address % 65536;
        ado = address / 65536 % 65536;
        payload = replicate size 0;
      }

  -- The second half, once the outputs are written.
  unfoldable pub read_inputs : List ℕ → RawTransport N → RawTransport N × Option (List ℕ)
  unfolding lrd_request send_primary_or_secondary verify_outputs
  read_inputs tx t =
      let (read, inputs) =
        send_primary_or_secondary (lrd_request (length tx) t)
          (record t { datagram_index = next8 t.datagram_index }) in
      elim inputs [
        | none ↦ (read, none)
        | some reply ↦
            let noted = record read { last_input_working_counter = reply.working_counter } in
            let verified =
              if is_some (sys.getenv "OEC_TRACE_OUTPUT_VERIFY")
              then verify_outputs tx noted.output_windows noted
              else noted in
            (
              record verified { last_working_counter = reply.working_counter; error = "" },
              some reply.payload,
            )
      ]

  unfoldable pub exchange_raw : List ℕ → List ℕ → RawTransport N → RawTransport N × Option (List ℕ)
  unfolding lwr_request send_primary_or_secondary read_inputs
  exchange_raw tx rx t =
      let (written, outputs) = send_primary_or_secondary (lwr_request tx t) (record t {
        datagram_index = next8 t.datagram_index;
        last_output_working_counter = 0;
        last_input_working_counter = 0;
      }) in
      if not (is_some t.socket_fd)
      then (record t { error = "transport not open" }, none)
      else if not (length rx == length tx)
      then (record t { error = "TX/RX process image size mismatch" }, none)
      else elim outputs [
        | none ↦ (written, none)
        | some reply ↦
            read_inputs tx (record written { last_output_working_counter = reply.working_counter })
      ]
