-- ===== src/Raw/Matching.antt =====
-- The attempts of exchange (sendPrimaryOrSecondary) in src/transport/linux_raw_socket_transport.cpp: a
-- reply matches its request, and was carried on one of the interfaces.
use mathlib.Core.Path.{subst}
use openethercat.Base.{
  ℕ, ◌≤◌, ◌≡◌, refl, sym, ap, true, false, ◌&&◌, inl, inr, if_cases, Option, none, some, arith,
  length,
}
use openethercat.Frame.{DatagramRequest}
use openethercat.Raw.{RawTransport, System, done}
use openethercat.Raw.Datagram.{Reply, transceive}
use openethercat.Raw.Exchange.{is_some, send_secondary, send_primary_or_secondary}
use openethercat.Raw.Carried.{Wires, wires, IsInterface, Carried, transceive-Carried}
use openethercat.Raw.Replies.{IsBounded, transceive_match, outcome_cases}

module _ {N : Type 0} (sys : System N) (bounded : IsBounded sys) (over : ℕ → ℕ) where
  -- A reply that matches the request and was carried, of a transport that expects at least `expected`.
  abbrev pub Matches : RawTransport N → DatagramRequest → RawTransport N × Option Reply → Type 0
  Matches t request r =
      (reply : Reply)
      → r.1 ≡ some reply
      → (t.expected_working_counter ≤ reply.working_counter)
        × (length reply.payload ≡ length request.payload)
        × (r.0.expected_working_counter ≡ t.expected_working_counter)
        × (r.0.last_output_working_counter ≡ t.last_output_working_counter)
        × (r.0.logical_address ≡ t.logical_address)
        × (r.0.datagram_index ≡ t.datagram_index)
        × (wires r.0 ≡ wires t)
        × Carried sys over (wires t) request reply.working_counter reply.payload

  -- The reply of an answered attempt, with what is kept.
  Matches-done :
      (request : DatagramRequest) (t u v : RawTransport N) (fd : Option ℕ) (index : ℕ)
      (found : Reply)
      → IsInterface (wires t) fd index
      → u ≡ record t { system = u.system; error = u.error }
      → v ≡ record t {
        system = v.system;
        error = v.error;
        last_frame_used_secondary = v.last_frame_used_secondary;
      }
      → (transceive sys over fd index request u).1 ≡ done found
      → Matches t request (v, some found)
  Matches-done request t u v fd index found interface same kept e reply h =
      let w_same : wires u ≡ wires t = ap wires same in
      let found_same : found ≡ reply =
        ap (λ (o : Option Reply). elim o [ none ↦ found | some r ↦ r ]) h in
      let (enough, sized, _) = transceive_match sys bounded over fd index request u found e in
      let carried =
        transceive-Carried sys over request fd index u
          (subst (λ (w : Wires). IsInterface w fd index) (sym w_same) interface) found e in
      subst
        (λ (r : Reply).
          (t.expected_working_counter ≤ r.working_counter)
          × (length r.payload ≡ length request.payload)
          × (v.expected_working_counter ≡ t.expected_working_counter)
          × (v.last_output_working_counter ≡ t.last_output_working_counter)
          × (v.logical_address ≡ t.logical_address)
          × (v.datagram_index ≡ t.datagram_index)
          × (wires v ≡ wires t)
          × Carried sys over (wires t) request r.working_counter r.payload)
        found_same
        (
          subst (λ (n : ℕ). n ≤ found.working_counter)
              (ap (λ (x : RawTransport N). x.expected_working_counter) same) enough,
          sized,
          ap (λ (x : RawTransport N). x.expected_working_counter) kept,
          ap (λ (x : RawTransport N). x.last_output_working_counter) kept,
          ap (λ (x : RawTransport N). x.logical_address) kept,
          ap (λ (x : RawTransport N). x.datagram_index) kept,
          ap wires kept,
          subst (λ (w : Wires). Carried sys over w request found.working_counter found.payload)
              w_same carried,
        )

  no_reply : (request : DatagramRequest) (t u : RawTransport N) → Matches t request (u, none)
  no_reply request t u reply h = absurd (cc h)

  pub send-Matches :
      (request : DatagramRequest) (t : RawTransport N)
      → Matches t request (send_primary_or_secondary sys over request t)
  unfolding send_primary_or_secondary send_secondary
  send-Matches request t =
      let P = Matches t request in
      let f = transceive sys over t.socket_fd t.if_index request t in
      outcome_cases P f.1
        (λ found e.
          Matches-done request t t (record t { system = f.0; last_frame_used_secondary = false })
            t.socket_fd t.if_index found (inl (refl, refl)) refl refl e)
        (λ why.
          let u = record t { system = f.0; error = why } in
          let s = transceive sys over t.secondary_socket_fd t.secondary_if_index request u in
          if_cases P (t.redundancy_enabled && is_some t.secondary_socket_fd)
            (λ both.
              outcome_cases P s.1
                (λ found e.
                  Matches-done request t u
                    (record u { system = s.0; last_frame_used_secondary = true })
                    t.secondary_socket_fd t.secondary_if_index found
                    (inr (ground arith, refl, refl)) refl refl e)
                (λ why2. no_reply request t (record u { system = s.0; error = why2 })))
            (λ _. no_reply request t u))
