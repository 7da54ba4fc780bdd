-- ===== src/Raw/Retries.antt =====
-- How often mailboxDatagramWithRetry of src/transport/linux_raw_socket_transport.cpp sends its datagram,
-- observed by a system that counts.
use openethercat.Base.{
  ℕ, zero, suc, ◌+◌, ◌-◌, ◌/◌, ◌%◌, ◌≤◌, ◌≡◌, refl, ap, true, false, not, Option, String, ltb, ◌==◌,
  length, arith, if_both, option_both,
}
use openethercat.Frame.{DatagramRequest, parse_datagram_frame, build_datagram_frame}
use openethercat.Raw.{RawTransport, System, MailboxDiagnostics, Outcome}
use openethercat.Raw.Datagram.{Reply, scan, transceive, send_datagram_request}
use openethercat.Raw.Errors.{is_transient}
use openethercat.Raw.Retry.{
  MailboxRetryConfig, Answer, give_up, count_timeout, sleep_ms, back_off, forced_timeout, attempts,
  mailbox_datagram_with_retry,
}
use openethercat.Raw.Steps.{outcome_both, ready_both}

-- A system beside the number of datagrams that were handed to it.
unfoldable pub counting : {N : Type 0} → System N → System (N × ℕ)
counting sys = record {
  now = λ s. sys.now s.0;
  sleep = λ ns s. (sys.sleep ns s.0, s.1);
  socket = λ s. (((sys.socket s.0).0, s.1), (sys.socket s.0).1);
  interface_index = λ fd name s.
      (((sys.interface_index fd name s.0).0, s.1), (sys.interface_index fd name s.0).1);
  hardware_address = λ fd name s.
      (((sys.hardware_address fd name s.0).0, s.1), (sys.hardware_address fd name s.0).1);
  bind = λ fd index s. (((sys.bind fd index s.0).0, s.1), (sys.bind fd index s.0).1);
  close_socket = λ fd s. (sys.close_socket fd s.0, s.1);
  send_to = λ fd index mac bytes s.
      (((sys.send_to fd index mac bytes s.0).0, suc s.1), (sys.send_to fd index mac bytes s.0).1);
  select = λ fd ms s. (((sys.select fd ms s.0).0, s.1), (sys.select fd ms s.0).1);
  receive =
      λ fd capacity s. (((sys.receive fd capacity s.0).0, s.1), (sys.receive fd capacity s.0).1);
  getenv = sys.getenv;
  stoi = sys.stoi;
  stoul = sys.stoul;
}

module _ {N : Type 0} (sys : System N) (over : ℕ → ℕ) where
  scan-sent :
      (fd : Option ℕ) (timeout start expected : ℕ) (request : DatagramRequest) (rounds capacity : ℕ)
      (n : N × ℕ)
      → (scan (counting sys) over fd timeout start expected request rounds capacity n).0.1 ≡ n.1
  unfolding scan counting
  scan-sent fd timeout start expected request zero capacity n = refl
  scan-sent fd timeout start expected request (suc rounds) capacity n =
      let Same : (N × ℕ) × Outcome Reply → Type 0 = λ r. r.0.1 ≡ n.1 in
      let remaining = timeout - (sys.now n.0 - start) / 1000000 in
      let w = sys.select fd remaining n.0 in
      let g = sys.receive fd capacity w.0 in
      if_both Same (remaining == 0) refl (
        ready_both Same w.1
          (outcome_both Same g.1
            (λ frame.
              option_both Same
                (parse_datagram_frame over frame request.command request.datagram_index
                  (length request.payload))
                (scan-sent fd timeout start expected request rounds (length frame) (g.0, n.1))
                (λ response. if_both Same (ltb response.working_counter expected) refl refl))
            (λ why. refl))
          refl (λ why. refl))

  send-sent :
      (request : DatagramRequest) (t : RawTransport (N × ℕ))
      → (send_datagram_request (counting sys) over request t).0.system.1 ≡ suc t.system.1
  unfolding send_datagram_request transceive counting
  send-sent request t =
      let s =
        sys.send_to t.socket_fd t.if_index t.destination_mac
          (build_datagram_frame t.destination_mac t.source_mac request) t.system.0 in
      option_both (λ (r : (N × ℕ) × Outcome Reply). r.0.1 ≡ suc t.system.1) s.1
        (scan-sent t.socket_fd t.timeout_ms (sys.now s.0) t.expected_working_counter request
          t.max_frames_per_cycle 1518 (s.0, suc t.system.1))
        (λ why. refl)

  send-retries :
      (request : DatagramRequest) (t : RawTransport (N × ℕ))
      → (send_datagram_request (counting sys) over request t).0.diagnostics ≡ t.diagnostics
  unfolding send_datagram_request
  send-retries request t = refl

  -- At least one datagram is sent and at most one more than `left`, and every one but the first is
  -- counted as a retry, in 64 bits.
  IsCounted : ℕ → RawTransport (N × ℕ) → RawTransport (N × ℕ) × Answer Reply → Type 0
  IsCounted left t r =
      (t.system.1 + 1 ≤ r.0.system.1)
      × (r.0.system.1 ≤ t.system.1 + 1 + left)
      × ((t.diagnostics.datagram_retries + r.0.system.1) % 18446744073709551616
          ≡ (r.0.diagnostics.datagram_retries + t.system.1 + 1) % 18446744073709551616)

  -- The last attempt.
  stop-IsCounted :
      (left : ℕ) (t : RawTransport (N × ℕ)) (r : RawTransport (N × ℕ) × Answer Reply)
      → r.0.system.1 ≡ suc t.system.1
      → r.0.diagnostics.datagram_retries ≡ t.diagnostics.datagram_retries
      → IsCounted left t r
  unfolding IsCounted
  stop-IsCounted left t r sent same = (omega arith, omega arith, omega arith)

  -- An attempt before the others.
  more-IsCounted :
      (left : ℕ) (t u : RawTransport (N × ℕ)) (r : RawTransport (N × ℕ) × Answer Reply)
      → u.system.1 ≡ suc t.system.1
      → u.diagnostics.datagram_retries ≡ (t.diagnostics.datagram_retries + 1) % 18446744073709551616
      → IsCounted left u r
      → IsCounted (suc left) t r
  unfolding IsCounted
  more-IsCounted left t u r sent counted h = (omega arith, omega arith, omega arith)

  give_up-IsCounted :
      (left : ℕ) (why : String) (request : DatagramRequest) (t : RawTransport (N × ℕ))
      → IsCounted left t (give_up why (send_datagram_request (counting sys) over request t).0)
  unfolding give_up count_timeout
  give_up-IsCounted left why request t =
      let s = send_datagram_request (counting sys) over request t in
      stop-IsCounted left t (give_up why s.0)
        (if_both (λ (u : RawTransport (N × ℕ)). u.system.1 ≡ suc t.system.1) (is_transient why)
          (send-sent request t) (send-sent request t))
        (if_both
          (λ (u : RawTransport (N × ℕ)).
            u.diagnostics.datagram_retries ≡ t.diagnostics.datagram_retries)
          (is_transient why)
          (ap (λ (d : MailboxDiagnostics). d.datagram_retries) (send-retries request t))
          (ap (λ (d : MailboxDiagnostics). d.datagram_retries) (send-retries request t)))

  attempts-IsCounted :
      (config : MailboxRetryConfig) (request : DatagramRequest) (text : String) (attempt left : ℕ)
      (t : RawTransport (N × ℕ))
      → IsCounted left t (attempts (counting sys) over config request text attempt left t)
  unfolding attempts back_off sleep_ms counting
  attempts-IsCounted config request text attempt zero t =
      let s = send_datagram_request (counting sys) over request t in
      outcome_both (IsCounted 0 t) s.1
        (λ reply.
          stop-IsCounted 0 t _ (send-sent request t)
            (ap (λ (d : MailboxDiagnostics). d.datagram_retries) (send-retries request t)))
        (λ why. give_up-IsCounted 0 why request t)
  attempts-IsCounted config request text attempt (suc left) t =
      let s = send_datagram_request (counting sys) over request t in
      outcome_both (IsCounted (suc left) t) s.1
        (λ reply.
          stop-IsCounted (suc left) t _ (send-sent request t)
            (ap (λ (d : MailboxDiagnostics). d.datagram_retries) (send-retries request t)))
        (λ why.
          if_both (IsCounted (suc left) t) (not (is_transient why))
            (give_up-IsCounted (suc left) why request t)
            (more-IsCounted left t (back_off (counting sys) config attempt s.0) _
              (send-sent request t)
              (ap (λ (d : MailboxDiagnostics). (d.datagram_retries + 1) % 18446744073709551616)
                (send-retries request t))
              (attempts-IsCounted config request text (suc attempt) left
                (back_off (counting sys) config attempt s.0))))

  forced_timeout-sent :
      (config : MailboxRetryConfig) (attempt left : ℕ) (t : RawTransport (N × ℕ))
      → (forced_timeout (counting sys) config attempt left t).0.system.1 ≡ t.system.1
  unfolding forced_timeout counting
  forced_timeout-sent config attempt zero t = refl
  forced_timeout-sent config attempt (suc left) t =
      forced_timeout-sent config (suc attempt) left (back_off (counting sys) config attempt t)

-- A mailbox datagram is sent at least once and at most once more than the configured retries, and each
-- time but the first is counted as a retry in 64 bits; with the test switch it is never sent.
pub mailbox_datagram_with_retry_counts :
    {N : Type 0} (sys : System N) (over : ℕ → ℕ) (config : MailboxRetryConfig)
    (request : DatagramRequest) (text : String) (t : RawTransport (N × ℕ))
    → let r = mailbox_datagram_with_retry (counting sys) over false config request text t in
      let f = mailbox_datagram_with_retry (counting sys) over true config request text t in
      (t.system.1 + 1 ≤ r.0.system.1)
      × (r.0.system.1 ≤ t.system.1 + 1 + config.retries)
      × ((t.diagnostics.datagram_retries + r.0.system.1) % 18446744073709551616
          ≡ (r.0.diagnostics.datagram_retries + t.system.1 + 1) % 18446744073709551616)
      × (f.0.system.1 ≡ t.system.1)
unfolding mailbox_datagram_with_retry IsCounted
mailbox_datagram_with_retry_counts sys over config request text t =
    let (least, most, each) = attempts-IsCounted sys over config request text 0 config.retries t in
    (least, most, each, forced_timeout-sent sys over config 0 config.retries t)
