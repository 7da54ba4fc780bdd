-- ===== src/Raw/Steps/Calls.antt =====
-- foeRead, foeWrite, eoeSend and eoeReceive of
-- src/transport/linux_raw_socket_transport_foe_eoe.cpp as sequences of steps.
use openethercat.Base.{
  ℕ, ◌-◌, min, refl, false, not, List, [], if◌then◌else◌, ltb, if_both, option_both,
}
use openethercat.Raw.{RawTransport, System}
use openethercat.Raw.Calls.{
  fail_send, fail_receive, foe_read_raw, foe_write_raw, eoe_send_raw, eoe_receive_raw,
}
use openethercat.Raw.Datagram.{to_auto_increment_address}
use openethercat.Raw.Exchange.{is_some}
use openethercat.Raw.Files.{mailbox_type_eoe, foe_request, foe_frame, with_diagnostics, send, wait}
use openethercat.Raw.Frames.{
  Expected, resolve_mailbox_window, mailbox_write_frame, mailbox_read_frame_expected,
}
use openethercat.Raw.Steps.{
  Steps, none_yet, steps, counts, Steps-trans, StepsTo, stepped_to, outcome_both,
}
use openethercat.Raw.Steps.Files.{
  read_fails, write_fails, send-Steps, wait-Steps, read_packets-MayStepTo, write_accepted-MayStepTo,
}
use openethercat.Raw.Steps.Frames.{
  resolve_mailbox_window-StepsTo, mailbox_write_frame-StepsTo, mailbox_read_frame_expected-StepsTo,
}
use openethercat.Raw.Steps.Transactions.{MayStepTo, then_may}
use openethercat.Topology.Manager.{next64}
use openethercat.Transport.{FoeRequest}

module _ {N : Type 0} (sys : System N) (over : ℕ → ℕ) (position : ℕ) where
  pub foe_read_raw-MayStepTo :
      (fuel : ℕ) (request : FoeRequest) (t : RawTransport N)
      → MayStepTo sys t (foe_read_raw sys over fuel position request t)
  unfolding foe_read_raw
  foe_read_raw-MayStepTo fuel request t =
      let started =
        with_diagnostics (λ d. record d { foe_read_started = next64 d.foe_read_started }) t in
      let begun : Steps sys t started =
        steps none_yet (counts t _ (refl, refl, refl, refl, refl, refl, refl, refl)) in
      let m = resolve_mailbox_window sys over (to_auto_increment_address position) started in
      let w = m.1.0 in
      let s = send sys over position w (foe_request 1 request) m.0 in
      let sent : Steps sys t s.0 = Steps-trans sys begun (
        Steps-trans sys
          (resolve_mailbox_window-StepsTo sys over (to_auto_increment_address position)
            started).stepped
          (send-Steps sys over position w (foe_request 1 request) m.0)) in
      let max_data : ℕ =
        if ltb 12 w.read_size
        then w.read_size - 12
        else if ltb request.max_chunk_bytes 16
        then 16
        else request.max_chunk_bytes in
      if_both (MayStepTo sys t) (not (is_some t.socket_fd)) (read_fails sys over [] _ begun) (
        option_both (MayStepTo sys t) s.1.1
          (then_may sys sent
            (read_packets-MayStepTo sys over position w fuel max_data m.1.1 s.1.0 1 [] s.0))
          (λ why. read_fails sys over [] _ sent))

  pub foe_write_raw-MayStepTo :
      (fuel : ℕ) (request : FoeRequest) (bytes : List ℕ) (t : RawTransport N)
      → MayStepTo sys t (foe_write_raw sys over fuel position request bytes t)
  unfolding foe_write_raw
  foe_write_raw-MayStepTo fuel request bytes t =
      let started =
        with_diagnostics (λ d. record d { foe_write_started = next64 d.foe_write_started }) t in
      let begun : Steps sys t started =
        steps none_yet (counts t _ (refl, refl, refl, refl, refl, refl, refl, refl)) in
      let m = resolve_mailbox_window sys over (to_auto_increment_address position) started in
      let w = m.1.0 in
      let s = send sys over position w (foe_request 2 request) m.0 in
      let sent : Steps sys t s.0 = Steps-trans sys begun (
        Steps-trans sys
          (resolve_mailbox_window-StepsTo sys over (to_auto_increment_address position)
            started).stepped
          (send-Steps sys over position w (foe_request 2 request) m.0)) in
      let g = wait sys over position w (foe_frame s.1.0 false) s.0 in
      let got = Steps-trans sys sent (wait-Steps sys over position w (foe_frame s.1.0 false) s.0) in
      let max_data : ℕ =
        if ltb 12 w.write_size
        then min request.max_chunk_bytes (w.write_size - 12)
        else min request.max_chunk_bytes 256 in
      if_both (MayStepTo sys t) (not (is_some t.socket_fd)) (write_fails sys over _ begun) (
        option_both (MayStepTo sys t) s.1.1
          (then_may sys got
            (write_accepted-MayStepTo sys over position w fuel max_data bytes m.1.1 g))
          (λ why. write_fails sys over _ sent))

  pub eoe_send_raw-StepsTo :
      (frame : List ℕ) (t : RawTransport N) → StepsTo sys t (eoe_send_raw sys over position frame t)
  unfolding eoe_send_raw fail_send
  eoe_send_raw-StepsTo frame t =
      let adp = to_auto_increment_address position in
      let started =
        with_diagnostics (λ d. record d { eoe_send_started = next64 d.eoe_send_started }) t in
      let begun : Steps sys t started =
        steps none_yet (counts t _ (refl, refl, refl, refl, refl, refl, refl, refl)) in
      let m = resolve_mailbox_window sys over adp started in
      let s = mailbox_write_frame sys over adp m.1.0 mailbox_type_eoe frame m.0 in
      let sent : Steps sys t s.0 = Steps-trans sys begun (
        Steps-trans sys (resolve_mailbox_window-StepsTo sys over adp started).stepped
          (mailbox_write_frame-StepsTo sys over adp m.1.0 mailbox_type_eoe frame m.0).stepped) in
      if_both (StepsTo sys t) (not (is_some t.socket_fd))
        (stepped_to sys (steps begun (counts _ _ (refl, refl, refl, refl, refl, refl, refl, refl))))
        (option_both (StepsTo sys t) s.1.1 (stepped_to sys sent) (λ why.
          stepped_to sys
            (steps sent (counts s.0 _ (refl, refl, refl, refl, refl, refl, refl, refl)))))

  pub eoe_receive_raw-StepsTo :
      (t : RawTransport N) → StepsTo sys t (eoe_receive_raw sys over position t)
  unfolding eoe_receive_raw fail_receive
  eoe_receive_raw-StepsTo t =
      let adp = to_auto_increment_address position in
      let started =
        with_diagnostics (λ d. record d { eoe_receive_started = next64 d.eoe_receive_started }) t in
      let begun : Steps sys t started =
        steps none_yet (counts t _ (refl, refl, refl, refl, refl, refl, refl, refl)) in
      let m = resolve_mailbox_window sys over adp started in
      let e : Expected = record {
        counter = 0;
        type = mailbox_type_eoe;
        enforce_counter = false;
        drain_emergencies = false;
        timeout_error = "Timed out waiting for EoE mailbox frame";
      } in
      let g = mailbox_read_frame_expected sys over adp position m.1.0 e m.0 in
      let got : Steps sys t g.0 = Steps-trans sys begun (
        Steps-trans sys (resolve_mailbox_window-StepsTo sys over adp started).stepped
          (mailbox_read_frame_expected-StepsTo sys over adp position m.1.0 e m.0).stepped) in
      if_both (StepsTo sys t) (not (is_some t.socket_fd))
        (stepped_to sys (steps begun (counts _ _ (refl, refl, refl, refl, refl, refl, refl, refl))))
        (outcome_both (StepsTo sys t) g.1 (λ frame. stepped_to sys got)
          (λ why.
            stepped_to sys
              (steps got (counts g.0 _ (refl, refl, refl, refl, refl, refl, refl, refl)))))
