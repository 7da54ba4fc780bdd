-- ===== src/Raw/Datagram.antt =====
-- One datagram sent and its response awaited: sendAndReceiveDatagram of
-- src/transport/linux_raw_socket_transport.cpp and of src/transport/linux_raw_socket_transport_core_io.cpp,
-- which are the same text. `over` is what a read past the end of a vector gives.
use openethercat.Base.{
  ℕ, zero, suc, ◌+◌, ◌-◌, ◌/◌, ◌%◌, List, Option, none, some, String, ◌<>◌, if◌then◌else◌, ltb,
  ◌==◌, length,
}
use openethercat.Base.Text.{to_string}
use openethercat.Frame.{DatagramRequest, build_datagram_frame, parse_datagram_frame}
use openethercat.Raw.{RawTransport, System, Outcome, done, failed, readable, timed_out, unready}

-- What the two out parameters receive.
pub record Reply : Type 0 where
  pub working_counter : ℕ
  pub payload : List ℕ

abbrev pub command_aprd : ℕ
command_aprd = 0x01

abbrev pub command_apwr : ℕ
command_apwr = 0x02

abbrev pub command_brd : ℕ
command_brd = 0x07

abbrev pub command_bwr : ℕ
command_bwr = 0x08

abbrev pub command_lrd : ℕ
command_lrd = 0x0a

abbrev pub command_lwr : ℕ
command_lwr = 0x0b

abbrev pub next8 : ℕ → ℕ
next8 n = (n + 1) % 256

-- Positions count down from 0 in 16 bits.
unfoldable pub to_auto_increment_address : ℕ → ℕ
to_auto_increment_address position = (65536 - position) % 65536

unfoldable too_low : ℕ → ℕ → String
unfolding to_string
too_low got expected =
    "working counter too low (got="
    <> (to_string got <> (", expected>=" <> (to_string expected <> ")")))

module _ {N : Type 0} (sys : System N) (over : ℕ → ℕ) where
  -- The loop over received frames: `rounds` more may be looked at, and the buffer has `capacity`
  -- bytes. It is cut to the size of each frame and never grows again.
  unfoldable pub scan : Option ℕ → ℕ → ℕ → ℕ → DatagramRequest → ℕ → ℕ → N → N × Outcome Reply
  unfolding too_low parse_datagram_frame
  scan fd timeout start expected request zero capacity n =
      (n, failed "response frame not found in cycle window")
  scan fd timeout start expected request (suc rounds) capacity n =
      let remaining = timeout - (sys.now n - start) / 1000000 in
      let (waited, ready) = sys.select fd remaining n in
      let (got, received) = sys.receive fd capacity waited in
      if remaining == 0 then (n, failed "receive timeout") else elim ready [
        | timed_out ↦ (waited, failed "receive timeout")
        | unready why ↦ (waited, failed ("select() failed: " <> why))
        | readable ↦ elim received [
          | failed why ↦ (got, failed ("recv() failed: " <> why))
          | done frame ↦
              elim (parse_datagram_frame over frame request.command request.datagram_index
                (length request.payload)) [
                  | none ↦ scan fd timeout start expected request rounds (length frame) got
                  | some response ↦
                      if ltb response.working_counter expected
                      then (got, failed (too_low response.working_counter expected))
                      else (
                        got,
                        done (record {
                          working_counter = response.working_counter;
                          payload = response.payload;
                        }),
                      )
                ]
        ]
      ]

  unfoldable pub transceive : Option ℕ → ℕ → DatagramRequest → RawTransport N → N × Outcome Reply
  unfolding scan build_datagram_frame
  transceive fd if_index request t =
      let (sent, refusal) =
        sys.send_to fd if_index t.destination_mac
          (build_datagram_frame t.destination_mac t.source_mac request) t.system in
      elim refusal [
        | some why ↦ (sent, failed ("sendto() failed: " <> why))
        | none ↦
            scan fd t.timeout_ms (sys.now sent) t.expected_working_counter request
              t.max_frames_per_cycle 1518 sent
      ]

  -- The call on the first interface, which most of the transport makes.
  unfoldable pub send_datagram_request :
      DatagramRequest → RawTransport N → RawTransport N × Outcome Reply
  unfolding transceive
  send_datagram_request request t =
      let (after, result) = transceive t.socket_fd t.if_index request t in
      (record t { system = after }, result)

  -- The request with the next index, which the counter gives and then passes.
  unfoldable pub send_next : ℕ → ℕ → ℕ → List ℕ → RawTransport N → RawTransport N × Outcome Reply
  unfolding send_datagram_request
  send_next command adp ado payload t =
      send_datagram_request
        (record {
          command = command;
          datagram_index = t.datagram_index;
          adp = adp;
          ado = ado;
          payload = payload;
        })
        (record t { datagram_index = next8 t.datagram_index })
