-- ===== src/Raw/Carried.antt =====
-- A datagram that was carried: what sendAndReceiveDatagram of src/transport/linux_raw_socket_transport.cpp
-- sent, and the frame that it took its answer from.
use openethercat.Base.{
  ℕ, zero, suc, ◌-◌, ◌/◌, ◌≡◌, ◌⊎◌, Bool, true, List, Option, none, some, length,
}
use openethercat.Frame.{
  Mac, DatagramRequest, DatagramResponse, build_datagram_frame, parse_datagram_frame,
}
use openethercat.Raw.{RawTransport, System, Outcome, done}
use openethercat.Raw.Datagram.{Reply, scan, transceive}
use openethercat.Raw.Replies.{option_cases, parsed_frame, scan_cases}

-- What a transport sends on.
pub record Wires : Type 0 where
  pub first_fd : Option ℕ
  pub first_index : ℕ
  pub second_fd : Option ℕ
  pub second_index : ℕ
  pub redundant : Bool
  pub destination : Mac
  pub source : Mac

abbrev pub wires : {N : Type 0} → RawTransport N → Wires
wires t = record {
  first_fd = t.socket_fd;
  first_index = t.if_index;
  second_fd = t.secondary_socket_fd;
  second_index = t.secondary_if_index;
  redundant = t.redundancy_enabled;
  destination = t.destination_mac;
  source = t.source_mac;
}

-- One of the interfaces: the second one only with redundancy.
abbrev pub IsInterface : Wires → Option ℕ → ℕ → Type 0
IsInterface w fd index =
    ((fd ≡ w.first_fd) × (index ≡ w.first_index))
    ⊎ ((w.redundant ≡ true) × (fd ≡ w.second_fd) × (index ≡ w.second_index))

-- The frame of a request was sent on one of the interfaces, and a frame was received there that is an
-- answer to it, with this working counter and this payload.
pub record Carried {N : Type 0} (sys : System N) (over : ℕ → ℕ) (w : Wires)
    (request : DatagramRequest) (working_counter : ℕ) (payload : List ℕ) : Type 0 where
  fd : Option ℕ
  index : ℕ
  interface : IsInterface w fd index
  before : N
  sent :
      (sys.send_to fd index w.destination
        (build_datagram_frame w.destination w.source request)
        before).1
      ≡ none
  capacity : ℕ
  waiting : N
  frame : List ℕ
  response : DatagramResponse
  received : (sys.receive fd capacity waiting).1 ≡ done frame
  answers :
      parse_datagram_frame over frame request.command request.datagram_index
        (length request.payload)
      ≡ some response
  counted : response.working_counter ≡ working_counter
  carried : response.payload ≡ payload

module _ {N : Type 0} (sys : System N) (over : ℕ → ℕ) (request : DatagramRequest) where
  -- A reply is taken from a frame that was received.
  pub record Taken (fd : Option ℕ) (reply : Reply) : Type 0 where
    pub room : ℕ
    pub state : N
    pub bytes : List ℕ
    pub answer : DatagramResponse
    pub got : (sys.receive fd room state).1 ≡ done bytes
    pub read :
        parse_datagram_frame over bytes request.command request.datagram_index
          (length request.payload)
        ≡ some answer
    pub same_counter : answer.working_counter ≡ reply.working_counter
    pub same_payload : answer.payload ≡ reply.payload

  scan-Taken :
      (fd : Option ℕ) (timeout start expected rounds capacity : ℕ) (n : N) (reply : Reply)
      → (scan sys over fd timeout start expected request rounds capacity n).1 ≡ done reply
      → Taken fd reply
  unfolding scan parsed_frame
  scan-Taken fd timeout start expected zero capacity n reply = λ e. absurd (cc e)
  scan-Taken fd timeout start expected (suc rounds) capacity n reply =
      let w = sys.select fd (timeout - (sys.now n - start) / 1000000) n in
      scan_cases sys over expected request (λ r. r.1 ≡ done reply → Taken fd reply) fd timeout start
        rounds capacity n (λ m why e. absurd (cc e))
        (λ frame _ strange. scan-Taken fd timeout start expected rounds (length frame) _ reply)
        (λ frame response got parsed high e. record {
          room = capacity;
          state = w.0;
          bytes = frame;
          answer = response;
          got = got;
          read = parsed;
          same_counter = cc e;
          same_payload = cc e;
        })

  -- A datagram that is answered was carried.
  pub transceive-Carried :
      (fd : Option ℕ) (index : ℕ) (t : RawTransport N)
      → IsInterface (wires t) fd index
      → (reply : Reply) → (transceive sys over fd index request t).1 ≡ done reply
      → Carried sys over (wires t) request reply.working_counter reply.payload
  unfolding transceive
  transceive-Carried fd index t interface reply =
      let s =
        sys.send_to fd index t.destination_mac
          (build_datagram_frame t.destination_mac t.source_mac request) t.system in
      option_cases
        (λ (r : N × Outcome Reply).
          r.1 ≡ done reply → Carried sys over (wires t) request reply.working_counter reply.payload)
        s.1
        (λ sent e.
          let taken =
            scan-Taken fd t.timeout_ms (sys.now s.0) t.expected_working_counter
              t.max_frames_per_cycle 1518 s.0 reply e in
          record {
            fd = fd;
            index = index;
            interface = interface;
            before = t.system;
            sent = sent;
            capacity = taken.room;
            waiting = taken.state;
            frame = taken.bytes;
            response = taken.answer;
            received = taken.got;
            answers = taken.read;
            counted = taken.same_counter;
            carried = taken.same_payload;
          })
        (λ why _ e. absurd (cc e))
