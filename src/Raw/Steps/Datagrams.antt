-- ===== src/Raw/Steps/Datagrams.antt =====
-- The datagrams and their retries as sequences of steps.
use openethercat.Base.{
  ℕ, zero, suc, ◌+◌, ◌*◌, ◌-◌, ◌/◌, ◌%◌, replicate, refl, Bool, not, List, Option, String, ltb,
  ◌==◌, length, if_both, option_both,
}
use openethercat.Frame.{DatagramRequest, parse_datagram_frame, build_datagram_frame}
use openethercat.Raw.{RawTransport, System}
use openethercat.Raw.Datagram.{scan, transceive, send_datagram_request, send_next, command_aprd}
use openethercat.Raw.Errors.{is_transient}
use openethercat.Raw.Retry.{
  MailboxRetryConfig, sleep_ms, count_timeout, give_up, back_off, forced_timeout, attempts,
  mailbox_datagram_with_retry, retry_next,
}
use openethercat.Raw.SyncManagers.{
  register_sm_base, register_sm_status_offset, read_sm_window_with_retry, read_sm_status_with_retry,
}
use openethercat.Raw.Steps.{
  Moves, still, moves, sleeping, sending, selecting, receiving, Steps, none_yet, steps, acts,
  indexes, counts, Steps-trans, MovesTo, StepsTo, moved_to, stepped_to, then_moved, then_to,
  outcome_both, ready_both,
}

module _ {N : Type 0} (sys : System N) where
  module _ (over : ℕ → ℕ) (fd : Option ℕ) where
    scan-MovesTo :
        (timeout start expected : ℕ) (request : DatagramRequest) (rounds capacity : ℕ) (n : N)
        → MovesTo sys n (scan sys over fd timeout start expected request rounds capacity n)
    unfolding scan
    scan-MovesTo timeout start expected request zero capacity n = moved_to sys still
    scan-MovesTo timeout start expected request (suc rounds) capacity n =
        let remaining = timeout - (sys.now n - start) / 1000000 in
        let w = sys.select fd remaining n in
        let g = sys.receive fd capacity w.0 in
        let waited : Moves sys n w.0 = moves still (selecting fd remaining n) in
        let got : Moves sys n g.0 = moves waited (receiving fd capacity w.0) in
        if_both (MovesTo sys n) (remaining == 0) (moved_to sys still) (
          ready_both (MovesTo sys n) w.1
            (outcome_both (MovesTo sys n) g.1
              (λ frame.
                option_both (MovesTo sys n)
                  (parse_datagram_frame over frame request.command request.datagram_index
                    (length request.payload))
                  (then_moved sys got
                    (scan-MovesTo timeout start expected request rounds (length frame) g.0))
                  (λ response.
                    if_both (MovesTo sys n) (ltb response.working_counter expected)
                      (moved_to sys got) (moved_to sys got)))
              (λ why. moved_to sys got))
            (moved_to sys waited) (λ why. moved_to sys waited))

    transceive-MovesTo :
        (if_index : ℕ) (request : DatagramRequest) (t : RawTransport N)
        → MovesTo sys t.system (transceive sys over fd if_index request t)
    unfolding transceive
    transceive-MovesTo if_index request t =
        let bytes = build_datagram_frame t.destination_mac t.source_mac request in
        let s = sys.send_to fd if_index t.destination_mac bytes t.system in
        let sent : Moves sys t.system s.0 =
          moves still (sending fd if_index t.destination_mac bytes t.system) in
        option_both (MovesTo sys t.system) s.1
          (then_moved sys sent (
            scan-MovesTo t.timeout_ms (sys.now s.0) t.expected_working_counter request
              t.max_frames_per_cycle 1518 s.0))
          (λ why. moved_to sys sent)

  module _ (over : ℕ → ℕ) where
    send_datagram_request-StepsTo :
        (request : DatagramRequest) (t : RawTransport N)
        → StepsTo sys t (send_datagram_request sys over request t)
    unfolding send_datagram_request
    send_datagram_request-StepsTo request t =
        stepped_to sys (
          steps none_yet
            (acts t _ (transceive-MovesTo over t.socket_fd t.if_index request t).moved))

    pub send_next-StepsTo :
        (command adp ado : ℕ) (payload : List ℕ) (t : RawTransport N)
        → StepsTo sys t (send_next sys over command adp ado payload t)
    unfolding send_next
    send_next-StepsTo command adp ado payload t =
        then_to sys (steps none_yet (indexes t)) (send_datagram_request-StepsTo _ _)

  pub sleep_ms-Steps : (ms : ℕ) (t : RawTransport N) → Steps sys t (sleep_ms sys ms t)
  unfolding sleep_ms
  sleep_ms-Steps ms t = steps none_yet (acts t _ (moves still (sleeping (ms * 1000000) t.system)))

  pub count_timeout-Steps : (t : RawTransport N) → Steps sys t (count_timeout t)
  unfolding count_timeout
  count_timeout-Steps t =
      steps none_yet (counts t _ (refl, refl, refl, refl, refl, refl, refl, refl))

  back_off-Steps :
      (config : MailboxRetryConfig) (attempt : ℕ) (t : RawTransport N)
      → Steps sys t (back_off sys config attempt t)
  unfolding back_off
  back_off-Steps config attempt t =
      Steps-trans sys (steps none_yet (counts t _ (refl, refl, refl, refl, refl, refl, refl, refl)))
        (sleep_ms-Steps _ _)

  give_up-StepsTo : (why : String) (t : RawTransport N) → StepsTo sys t (give_up why t)
  unfolding give_up
  give_up-StepsTo why t =
      stepped_to sys (if_both (Steps sys t) (is_transient why) (count_timeout-Steps t) none_yet)

  forced_timeout-StepsTo :
      (config : MailboxRetryConfig) (attempt left : ℕ) (t : RawTransport N)
      → StepsTo sys t (forced_timeout sys config attempt left t)
  unfolding forced_timeout
  forced_timeout-StepsTo config attempt zero t = stepped_to sys (count_timeout-Steps t)
  forced_timeout-StepsTo config attempt (suc left) t =
      then_to sys (back_off-Steps config attempt t)
        (forced_timeout-StepsTo config (suc attempt) left _)

  module _ (over : ℕ → ℕ) (config : MailboxRetryConfig) (request : DatagramRequest)
      (text : String) where
    attempts-StepsTo :
        (attempt left : ℕ) (t : RawTransport N)
        → StepsTo sys t (attempts sys over config request text attempt left t)
    unfolding attempts
    attempts-StepsTo attempt zero t =
        let r = send_datagram_request sys over request t in
        let sent = (send_datagram_request-StepsTo over request t).stepped in
        outcome_both (StepsTo sys t) r.1 (λ reply. stepped_to sys sent)
          (λ why. then_to sys sent (give_up-StepsTo why r.0))
    attempts-StepsTo attempt (suc left) t =
        let r = send_datagram_request sys over request t in
        let sent = (send_datagram_request-StepsTo over request t).stepped in
        outcome_both (StepsTo sys t) r.1 (λ reply. stepped_to sys sent)
          (λ why.
            if_both (StepsTo sys t) (not (is_transient why))
              (then_to sys sent (give_up-StepsTo why r.0))
              (then_to sys sent (
                then_to sys (back_off-Steps config attempt r.0)
                  (attempts-StepsTo (suc attempt) left _))))

    mailbox_datagram_with_retry-StepsTo :
        (force : Bool) (t : RawTransport N)
        → StepsTo sys t (mailbox_datagram_with_retry sys over force config request text t)
    unfolding mailbox_datagram_with_retry
    mailbox_datagram_with_retry-StepsTo force t =
        if_both (StepsTo sys t) force (forced_timeout-StepsTo config 0 config.retries t)
          (attempts-StepsTo 0 config.retries t)

  module _ (over : ℕ → ℕ) (force : Bool) (config : MailboxRetryConfig) (adp : ℕ) where
    pub retry_next-StepsTo :
        (command ado : ℕ) (payload : List ℕ) (text : String) (t : RawTransport N)
        → StepsTo sys t (retry_next sys over force config command adp ado payload text t)
    unfolding retry_next
    retry_next-StepsTo command ado payload text t =
        then_to sys (steps none_yet (indexes t))
          (mailbox_datagram_with_retry-StepsTo over config _ text force _)

    pub read_sm_window-StepsTo :
        (sm_index : ℕ) (text : String) (t : RawTransport N)
        → StepsTo sys t (read_sm_window_with_retry sys over force config adp sm_index text t)
    unfolding read_sm_window_with_retry
    read_sm_window-StepsTo sm_index text t =
        stepped_to sys
          (retry_next-StepsTo command_aprd ((register_sm_base + sm_index * 8) % 65536)
            (replicate 8 0) text t).stepped

    pub read_sm_status-StepsTo :
        (sm_index : ℕ) (text : String) (t : RawTransport N)
        → StepsTo sys t (read_sm_status_with_retry sys over force config adp sm_index text t)
    unfolding read_sm_status_with_retry
    read_sm_status-StepsTo sm_index text t =
        stepped_to sys
          (retry_next-StepsTo command_aprd
            ((register_sm_base + sm_index * 8 + register_sm_status_offset) % 65536) (replicate 1 0)
            text t).stepped
