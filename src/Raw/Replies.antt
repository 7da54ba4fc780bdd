-- ===== src/Raw/Replies.antt =====
-- What the answers that the raw socket transport takes have in common:
-- sendAndReceiveDatagram of src/transport/linux_raw_socket_transport.cpp and mailboxReadMatchingCoe of
-- src/transport/linux_raw_socket_transport_mailbox.cpp.
use openethercat.Base.{
  ℕ, zero, suc, ◌+◌, ◌-◌, ◌/◌, ◌≤◌, ◌≡◌, refl, List, Option, none, some, String, ltb, ◌==◌, length,
  arith, if_both, if_cases,
}
use openethercat.Frame.{
  DatagramRequest, DatagramResponse, parse_datagram_frame, build_datagram_frame,
}
use openethercat.Frame.Parse.{parse_datagram_frame_sound}
use openethercat.Raw.{RawTransport, System, Outcome, done, failed}
use openethercat.Raw.Datagram.{Reply, scan, transceive}
use openethercat.Raw.Steps.{ready_both}

-- `recv` writes no more than the buffer holds.
unfoldable pub IsBounded : {N : Type 0} → System N → Type 0
IsBounded {N} sys =
    (fd : Option ℕ) (capacity : ℕ) (n : N) (frame : List ℕ)
    → (sys.receive fd capacity n).1 ≡ done frame
    → length frame ≤ capacity

pub option_cases {ℓ κ μ} :
    {A : Type ℓ} {B : Type κ} (P : B → Type μ) (o : Option A) {x : B} {f : A → B}
    → (o ≡ none → P x)
    → ((a : A) → o ≡ some a → P (f a))
    → P (elim o [ none ↦ x | some a ↦ f a ])
option_cases P none p q = p refl
option_cases P (some a) p q = q a refl

pub outcome_cases {ℓ κ μ} :
    {A : Type ℓ} {B : Type κ} (P : B → Type μ) (o : Outcome A) {f : A → B} {g : String → B}
    → ((a : A) → o ≡ done a → P (f a))
    → ((why : String) → P (g why))
    → P (elim o [ done a ↦ f a | failed why ↦ g why ])
outcome_cases P (done a) p q = p a refl
outcome_cases P (failed why) p q = q why

module _ {N : Type 0} (sys : System N) (over : ℕ → ℕ) (expected : ℕ)
    (request : DatagramRequest) where
  unfoldable pub parsed_frame : List ℕ → Option DatagramResponse
  parsed_frame frame =
      parse_datagram_frame over frame request.command request.datagram_index
        (length request.payload)

  -- What one round comes to: an error, a further round, or the reply.
  pub scan_cases :
      (P : N × Outcome Reply → Type 0) (fd : Option ℕ) (timeout start rounds capacity : ℕ) (n : N)
      → let g =
          sys.receive fd capacity (sys.select fd (timeout - (sys.now n - start) / 1000000) n).0 in
        ((m : N) (why : String) → P (m, failed why))
        → ((frame : List ℕ)
            → g.1 ≡ done frame
            → parsed_frame frame ≡ none
            → P (scan sys over fd timeout start expected request rounds (length frame) g.0))
        → ((frame : List ℕ) (response : DatagramResponse)
            → g.1 ≡ done frame
            → parsed_frame frame ≡ some response
            → expected ≤ response.working_counter
            → P (
              g.0,
              done (record {
                working_counter = response.working_counter;
                payload = response.payload;
              }),
            ))
        → P (scan sys over fd timeout start expected request (suc rounds) capacity n)
  unfolding scan parsed_frame
  scan_cases P fd timeout start rounds capacity n wrong again right =
      let remaining = timeout - (sys.now n - start) / 1000000 in
      let w = sys.select fd remaining n in
      let g = sys.receive fd capacity w.0 in
      if_both P (remaining == 0) (wrong n _) (
        ready_both P w.1
          (outcome_cases P g.1
            (λ frame got.
              option_cases P (parsed_frame frame) (λ strange. again frame got strange)
                (λ response parsed.
                  if_cases P (ltb response.working_counter expected) (λ low. wrong g.0 _)
                    (λ high. right frame response got parsed (ground arith))))
            (λ why. wrong g.0 _))
          (wrong w.0 _) (λ why. wrong w.0 _))

  -- If a result is a reply, then it carries as many bytes as were sent, in a frame that fits the buffer,
  -- and its working counter is not too low.
  IsMatch : ℕ → N × Outcome Reply → Type 0
  IsMatch capacity r =
      (reply : Reply)
      → r.1 ≡ done reply
      → (expected ≤ reply.working_counter)
        × (length reply.payload ≡ length request.payload)
        × (length reply.payload + 28 ≤ capacity)

  scan-IsMatch :
      IsBounded sys
      → (fd : Option ℕ) (timeout start rounds capacity : ℕ) (n : N)
      → IsMatch capacity (scan sys over fd timeout start expected request rounds capacity n)
  unfolding scan IsMatch IsBounded parsed_frame
  scan-IsMatch bounded fd timeout start zero capacity n = λ reply e. cc
  scan-IsMatch bounded fd timeout start (suc rounds) capacity n =
      let w = sys.select fd (timeout - (sys.now n - start) / 1000000) n in
      let g = sys.receive fd capacity w.0 in
      scan_cases (IsMatch capacity) fd timeout start rounds capacity n (λ m why reply e. cc)
        (λ frame got _ reply e. ground (
          arith,
          bounded fd capacity w.0 frame got,
          scan-IsMatch bounded fd timeout start rounds (length frame) g.0 reply e,
        ))
        (λ frame response got parsed high reply e. ground (
          arith,
          bounded fd capacity w.0 frame got,
          parse_datagram_frame_sound over frame request.command request.datagram_index
              (length request.payload) response parsed,
        ))

-- A frame that was received first and is not the answer cuts the buffer: only an answer in a frame of
-- that size or a smaller one is still found, whatever the network delivers after it.
pub scan_shrinks :
    {N : Type 0} (sys : System N)
    → IsBounded sys
    → (over : ℕ → ℕ) (fd : Option ℕ) (timeout start expected : ℕ) (request : DatagramRequest)
      (rounds capacity : ℕ) (n : N) (frame : List ℕ) (reply : Reply)
    → (sys.receive fd capacity (sys.select fd (timeout - (sys.now n - start) / 1000000) n).0).1
      ≡ done frame
    → parse_datagram_frame over frame request.command request.datagram_index
        (length request.payload)
      ≡ none
    → (scan sys over fd timeout start expected request (suc rounds) capacity n).1 ≡ done reply
    → length request.payload + 28 ≤ length frame
unfolding IsMatch parsed_frame
scan_shrinks sys bounded over fd timeout start expected request rounds capacity n frame reply got
      strange =
    scan_cases sys over expected request
      (λ r. r.1 ≡ done reply → length request.payload + 28 ≤ length frame) fd timeout start rounds
      capacity n (λ m why e. cc)
      (λ other got' _ e. ground (
        arith,
        scan-IsMatch sys over expected request bounded fd timeout start rounds (length other) _
            reply e,
      ))
      (λ other response got' parsed _ e. ground arith)

-- A datagram that is answered is answered by as many bytes as were sent, no more than a frame of 1518
-- bytes holds, with a working counter that is not below the expected one.
pub transceive_match :
    {N : Type 0} (sys : System N)
    → IsBounded sys
    → (over : ℕ → ℕ) (fd : Option ℕ) (if_index : ℕ) (request : DatagramRequest) (t : RawTransport N)
      (reply : Reply)
    → (transceive sys over fd if_index request t).1 ≡ done reply
    → (t.expected_working_counter ≤ reply.working_counter)
      × (length reply.payload ≡ length request.payload)
      × (length reply.payload + 28 ≤ 1518)
unfolding transceive IsMatch
transceive_match sys bounded over fd if_index request t =
    let s =
      sys.send_to fd if_index t.destination_mac
        (build_datagram_frame t.destination_mac t.source_mac request) t.system in
    option_cases (IsMatch sys over t.expected_working_counter request 1518) s.1
      (λ _.
        scan-IsMatch sys over t.expected_working_counter request bounded fd t.timeout_ms
          (sys.now s.0) t.max_frames_per_cycle 1518 s.0)
      (λ why _ reply e. cc)
