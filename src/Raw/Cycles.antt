-- ===== src/Raw/Cycles.antt =====
-- What a successful exchange of src/transport/linux_raw_socket_transport.cpp gives.
use mathlib.Core.Path.{subst}
use openethercat.Base.{
  ℕ, ◌+◌, ◌-◌, ◌/◌, ◌||◌, leb, min, [], ◌∷◌, ◌%◌, if◌then◌else◌, ◌≤◌, ◌≡◌, refl, sym, ap, ◌∙◌, Bool,
  not, List, Option, none, some, if_both, length, ◌==◌, replicate, length-replicate,
}
use openethercat.Frame.{DatagramRequest}
use openethercat.Raw.{RawTransport, System, ProcessDataWindow}
use openethercat.Raw.Datagram.{command_aprd, to_auto_increment_address, send_next, Reply, next8}
use openethercat.Raw.Exchange.{
  is_some, send_primary_or_secondary, verify_outputs, lrd_request, lwr_request, read_inputs,
  exchange_raw,
}
use openethercat.Raw.Carried.{Wires, wires, Carried}
use openethercat.Raw.Matching.{send-Matches}
use openethercat.Raw.Replies.{IsBounded, option_cases}

abbrev bytes_of : Option (List ℕ) → List ℕ
bytes_of none = []
bytes_of (some bytes) = bytes

-- A logical write (11) of the outputs to the logical address.
abbrev pub outputs_request : List ℕ → ℕ → ℕ → DatagramRequest
outputs_request tx address index = record {
  command = 11;
  datagram_index = index;
  adp = address % 65536;
  ado = address / 65536 % 65536;
  payload = tx;
}

-- A logical read (10) of as many bytes from the logical address behind the outputs.
abbrev pub inputs_request : ℕ → ℕ → ℕ → DatagramRequest
inputs_request size address index = record {
  command = 10;
  datagram_index = index;
  adp = (address + size) % 4294967296 % 65536;
  ado = (address + size) % 4294967296 / 65536 % 65536;
  payload = replicate size 0;
}

-- The request for the inputs, from what is kept of the first half.
Carried-moved :
    {N : Type 0} (sys : System N) (over : ℕ → ℕ) (size : ℕ) {w v : Wires} {a b i j counter : ℕ}
    {bytes : List ℕ}
    → w ≡ v
    → a ≡ b
    → i ≡ j
    → Carried sys over w (inputs_request size a i) counter bytes
    → Carried sys over v (inputs_request size b j) counter bytes
Carried-moved sys over size {w} {v} {a} {b} {i} {j} {counter} {bytes} same_wires same_a same_i c =
    subst (λ (x : Wires). Carried sys over x (inputs_request size b j) counter bytes) same_wires
      (subst (λ (x : ℕ). Carried sys over w (inputs_request size x j) counter bytes) same_a
        (subst (λ (x : ℕ). Carried sys over w (inputs_request size a x) counter bytes) same_i c))

module _ {N : Type 0} (sys : System N) (bounded : IsBounded sys) (over : ℕ → ℕ) where
  -- The check of the outputs leaves the counters alone.
  verify-same :
      (tx : List ℕ) (windows : List ProcessDataWindow) (t : RawTransport N)
      → let u = verify_outputs sys over tx windows t in
        (u.last_output_working_counter ≡ t.last_output_working_counter)
        × (u.last_input_working_counter ≡ t.last_input_working_counter)
  unfolding verify_outputs
  verify-same tx [] t = (refl, refl)
  verify-same tx (w ∷ windows) t =
      let relative = (w.logical_start + 4294967296 - t.logical_address) % 4294967296 in
      let count = min w.window_length (length tx - relative) in
      let s =
        send_next sys over command_aprd (to_auto_increment_address w.slave_position)
          w.physical_start (replicate count 0) t in
      let skip = leb (length tx) relative || count == 0 in
      let v = if skip then t else s.0 in
      let (out, inp) = verify-same tx windows v in
      (
        out
            ∙ if_both
                (λ (u : RawTransport N).
                  u.last_output_working_counter ≡ t.last_output_working_counter)
                skip refl refl,
        inp
            ∙ if_both
                (λ (u : RawTransport N).
                  u.last_input_working_counter ≡ t.last_input_working_counter)
                skip refl refl,
      )

  -- What the second half adds, for a transport that expects at least `expected`.
  Read : RawTransport N → ℕ → RawTransport N × Option (List ℕ) → Type 0
  Read t size r =
      (got : List ℕ)
      → r.1 ≡ some got
      → (length got ≡ size)
        × (t.expected_working_counter ≤ r.0.last_input_working_counter)
        × (r.0.last_working_counter ≡ r.0.last_input_working_counter)
        × (r.0.last_output_working_counter ≡ t.last_output_working_counter)
        × (r.0.error ≡ "")
        × Carried sys over (wires t) (inputs_request size t.logical_address t.datagram_index)
            r.0.last_input_working_counter got

  Read-done :
      (tx : List ℕ) (traced : Bool) (noted : RawTransport N) (reply : Reply) (t : RawTransport N)
      (size : ℕ)
      → t.expected_working_counter ≤ reply.working_counter
      → length reply.payload ≡ size
      → noted.last_input_working_counter ≡ reply.working_counter
      → noted.last_output_working_counter ≡ t.last_output_working_counter
      → Carried sys over
          (wires t)
          (inputs_request size t.logical_address t.datagram_index)
          reply.working_counter
          reply.payload
      → Read t size (
        record (if traced then verify_outputs sys over tx noted.output_windows noted else noted) {
          last_working_counter = reply.working_counter;
          error = "";
        },
        some reply.payload,
      )
  unfolding Read
  Read-done tx traced noted reply t size enough same_size same_in same_out carried got h =
      let v = if traced then verify_outputs sys over tx noted.output_windows noted else noted in
      let kept = verify-same tx noted.output_windows noted in
      let v_out : v.last_output_working_counter ≡ noted.last_output_working_counter =
        if_both
          (λ (u : RawTransport N).
            u.last_output_working_counter ≡ noted.last_output_working_counter)
          traced kept.0 refl in
      let v_in : v.last_input_working_counter ≡ noted.last_input_working_counter =
        if_both
          (λ (u : RawTransport N). u.last_input_working_counter ≡ noted.last_input_working_counter)
          traced kept.1 refl in
      let same_bytes : reply.payload ≡ got = ap (λ (o : Option (List ℕ)). bytes_of o) h in
      let request = inputs_request size t.logical_address t.datagram_index in
      (
        ap (λ (bytes : List ℕ). length bytes) (sym same_bytes) ∙ same_size,
        subst (λ (n : ℕ). t.expected_working_counter ≤ n) (sym (v_in ∙ same_in)) enough,
        sym (v_in ∙ same_in),
        v_out ∙ same_out,
        refl,
        subst
            (λ (bytes : List ℕ).
              Carried sys over (wires t) request v.last_input_working_counter bytes)
            same_bytes
            (subst (λ (n : ℕ). Carried sys over (wires t) request n reply.payload)
              (sym (v_in ∙ same_in)) carried),
      )

  read_inputs-Read :
      (tx : List ℕ) (t : RawTransport N) → Read t (length tx) (read_inputs sys over tx t)
  unfolding read_inputs lrd_request Read
  read_inputs-Read tx t =
      let P = Read t (length tx) in
      let request = lrd_request sys over (length tx) t in
      let u = record t { datagram_index = next8 t.datagram_index } in
      let s = send_primary_or_secondary sys over request u in
      option_cases P s.1 (λ _ got h. absurd (cc h))
        (λ reply found.
          let (enough, same_size, _, same_out, _, _, _, carried) =
            send-Matches sys bounded over request u reply found in
          Read-done tx (is_some (sys.getenv "OEC_TRACE_OUTPUT_VERIFY"))
            (record (s.0) { last_input_working_counter = reply.working_counter }) reply t
            (length tx) enough (same_size ∙ length-replicate (length tx) 0) refl same_out carried)

-- An exchange that succeeds has sent the outputs to the logical address, on one of the interfaces, and
-- has taken its results from two frames that were received there as answers: to that logical write, and
-- to a logical read of as many bytes behind the outputs. It returns the bytes of the second answer, as
-- many as it was given, and shows the working counters of the two answers, which are not below the
-- expected one, that of the inputs as the last one, and no error. `recv` is taken to write no more bytes
-- than its buffer holds.
pub exchange_raw_lem :
    {N : Type 0} (sys : System N)
    → IsBounded sys
    → (over : ℕ → ℕ) (tx rx : List ℕ) (t : RawTransport N) (got : List ℕ)
    → (exchange_raw sys over tx rx t).1 ≡ some got
    → let after = (exchange_raw sys over tx rx t).0 in
      (length got ≡ length tx)
      × (t.expected_working_counter ≤ after.last_output_working_counter)
      × (t.expected_working_counter ≤ after.last_input_working_counter)
      × (after.last_working_counter ≡ after.last_input_working_counter)
      × (after.error ≡ "")
      × ((sent : List ℕ) × Carried sys over
            (wires t)
            (outputs_request tx t.logical_address t.datagram_index)
            after.last_output_working_counter
            sent)
      × Carried sys over
          (wires t)
          (inputs_request (length tx) t.logical_address ((t.datagram_index + 1) % 256))
          after.last_input_working_counter
          got
unfolding exchange_raw lwr_request Read
exchange_raw_lem {N} sys bounded over tx rx t =
    let u = record t {
      datagram_index = next8 t.datagram_index;
      last_output_working_counter = 0;
      last_input_working_counter = 0;
    } in
    let request = lwr_request sys over tx t in
    let w = send_primary_or_secondary sys over request u in
    let Good : RawTransport N × Option (List ℕ) → Type 0 = λ r.
      (got : List ℕ)
      → r.1 ≡ some got
      → (length got ≡ length tx)
        × (t.expected_working_counter ≤ r.0.last_output_working_counter)
        × (t.expected_working_counter ≤ r.0.last_input_working_counter)
        × (r.0.last_working_counter ≡ r.0.last_input_working_counter)
        × (r.0.error ≡ "")
        × ((sent : List ℕ) × Carried sys over (wires t)
              (outputs_request tx t.logical_address t.datagram_index)
              r.0.last_output_working_counter sent)
        × Carried sys over (wires t)
            (inputs_request (length tx) t.logical_address ((t.datagram_index + 1) % 256))
            r.0.last_input_working_counter got in
    if_both Good (not (is_some t.socket_fd)) (λ got h. absurd (cc h))
      (if_both Good (not (length rx == length tx)) (λ got h. absurd (cc h))
        (option_cases Good w.1 (λ _ got h. absurd (cc h))
          (λ reply found got h.
            let (enough, _, same_expected, _, same_address, same_index, same_wires, written) =
              send-Matches sys bounded over request u reply found in
            let v = record (w.0) { last_output_working_counter = reply.working_counter } in
            let (size, inp, shown, out, none_left, read) =
              read_inputs-Read sys bounded over tx v got h in
            let r = read_inputs sys over tx v in
            (
              size,
              subst (λ (n : ℕ). t.expected_working_counter ≤ n) (sym out) enough,
              subst (λ (n : ℕ). n ≤ r.0.last_input_working_counter) same_expected inp,
              shown,
              none_left,
              (
                reply.payload,
                subst
                    (λ (n : ℕ).
                      Carried sys over (wires t)
                        (outputs_request tx t.logical_address t.datagram_index) n reply.payload)
                    (sym out) written,
              ),
              Carried-moved sys over (length tx) same_wires same_address same_index read,
            ))))
