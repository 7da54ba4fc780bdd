-- ===== src/Raw/Steps/Frames.antt =====
-- The mailbox accesses of FoE and EoE as sequences of steps.
use openethercat.Base.{
  ℕ, zero, suc, ◌+◌, ◌-◌, ◌*◌, ◌%◌, refl, ◌&&◌, not, List, ◌++◌, ltb, ◌==◌, length, replicate,
  if_both, option_both,
}
use openethercat.Mailbox.{
  EscMailboxFrame, mailbox_type_coe, encode_esc_mailbox, decode_esc_mailbox, parse_emergency,
}
use openethercat.Raw.{RawTransport, System, Outcome}
use openethercat.Raw.Datagram.{command_aprd, command_apwr, next8, send_next}
use openethercat.Raw.Frames.{
  Windows, Expected, Step, ends, again, read_mailbox_sm_window, resolve_mailbox_window,
  mailbox_write_frame, expected_frame, frame_round, frames_until, mailbox_read_frame_expected,
}
use openethercat.Raw.Steps.{
  Steps, none_yet, steps, frames, notes, counts, queues, Steps-trans, StepsTo, stepped_to, then_to,
  outcome_both,
}
use openethercat.Raw.Steps.Datagrams.{send_next-StepsTo, sleep_ms-Steps, count_timeout-Steps}
use openethercat.Raw.SyncManagers.{register_sm_base}

step_both :
    {A B : Type 0} (P : B → Type 0) (o : Step A) {f : Outcome A → B} {x : B}
    → ((a : Outcome A) → P (f a))
    → P x
    → P (elim o [ ends a ↦ f a | again ↦ x ])
step_both P (ends a) p q = p a
step_both P again p q = q

module _ {N : Type 0} (sys : System N) (over : ℕ → ℕ) where
  read_mailbox_sm_window-StepsTo :
      (adp sm : ℕ) (t : RawTransport N) → StepsTo sys t (read_mailbox_sm_window sys over adp sm t)
  unfolding read_mailbox_sm_window
  read_mailbox_sm_window-StepsTo adp sm t =
      stepped_to sys
        (send_next-StepsTo sys over command_aprd adp ((register_sm_base + sm * 8) % 65536)
          (replicate 8 0) t).stepped

  pub resolve_mailbox_window-StepsTo :
      (adp : ℕ) (t : RawTransport N) → StepsTo sys t (resolve_mailbox_window sys over adp t)
  unfolding resolve_mailbox_window
  resolve_mailbox_window-StepsTo adp t =
      let r0 = read_mailbox_sm_window sys over adp 0 t in
      let first : Steps sys t r0.0 = (read_mailbox_sm_window-StepsTo adp 0 t).stepped in
      let r1 = read_mailbox_sm_window sys over adp 1 r0.0 in
      let second : Steps sys t r1.0 =
        Steps-trans sys first (read_mailbox_sm_window-StepsTo adp 1 r0.0).stepped in
      outcome_both (StepsTo sys t) r0.1
        (λ sm0.
          outcome_both (StepsTo sys t) r1.1 (λ sm1. stepped_to sys second)
            (λ why. stepped_to sys second))
        (λ why. stepped_to sys first)

  pub mailbox_write_frame-StepsTo :
      (adp : ℕ) (w : Windows) (type : ℕ) (payload : List ℕ) (t : RawTransport N)
      → StepsTo sys t (mailbox_write_frame sys over adp w type payload t)
  unfolding mailbox_write_frame
  mailbox_write_frame-StepsTo adp w type payload t =
      let counted = record t { mailbox_counter = next8 t.mailbox_counter } in
      let bytes = encode_esc_mailbox (record {
        channel = 0;
        priority = 0;
        type = type;
        counter = t.mailbox_counter % 8;
        payload = payload;
      }) in
      let padded = bytes ++ replicate (w.write_size - length bytes) 0 in
      let s = send_next sys over command_apwr adp w.write_offset padded counted in
      let begun : Steps sys t counted = steps none_yet (frames t) in
      let sent : Steps sys t s.0 =
        Steps-trans sys begun
          (send_next-StepsTo sys over command_apwr adp w.write_offset padded counted).stepped in
      if_both (StepsTo sys t) (ltb w.write_size (length bytes)) (stepped_to sys begun) (
        outcome_both (StepsTo sys t) s.1
          (λ reply. stepped_to sys (
            steps (steps sent (counts s.0 _ (refl, refl, refl, refl, refl, refl, refl, refl)))
              (notes _ reply.working_counter)))
          (λ why. stepped_to sys sent))

  expected_frame-StepsTo :
      (position : ℕ) (e : Expected) (frame : EscMailboxFrame) (t : RawTransport N)
      → StepsTo sys t (expected_frame sys over position e frame t)
  unfolding expected_frame
  expected_frame-StepsTo position e frame t =
      if_both (StepsTo sys t) (e.drain_emergencies && (frame.type == mailbox_type_coe))
        (option_both (StepsTo sys t) (parse_emergency over frame.payload position)
          (stepped_to sys none_yet) (λ m. stepped_to sys (steps none_yet (queues t m))))
        (if_both (StepsTo sys t) (not (frame.type == e.type)) (stepped_to sys none_yet) (
          if_both (StepsTo sys t) (e.enforce_counter && not (frame.counter % 8 == e.counter % 8))
            (stepped_to sys
              (steps none_yet (counts t _ (refl, refl, refl, refl, refl, refl, refl, refl))))
            (stepped_to sys
              (steps none_yet (counts t _ (refl, refl, refl, refl, refl, refl, refl, refl))))))

  frame_round-StepsTo :
      (adp position : ℕ) (w : Windows) (e : Expected) (t : RawTransport N)
      → StepsTo sys t (frame_round sys over adp position w e t)
  unfolding frame_round
  frame_round-StepsTo adp position w e t =
      let s = send_next sys over command_aprd adp w.read_offset (replicate w.read_size 0) t in
      let sent : Steps sys t s.0 =
        (send_next-StepsTo sys over command_aprd adp w.read_offset (replicate w.read_size 0)
          t).stepped in
      outcome_both (StepsTo sys t) s.1
        (λ reply.
          let read =
            steps (steps sent (counts s.0 _ (refl, refl, refl, refl, refl, refl, refl, refl)))
              (notes _ reply.working_counter) in
          option_both (StepsTo sys t) (decode_esc_mailbox over reply.payload) (stepped_to sys read)
            (λ frame. then_to sys read (expected_frame-StepsTo position e frame _)))
        (λ why. stepped_to sys sent)

  frames_until-StepsTo :
      (adp position : ℕ) (w : Windows) (e : Expected) (deadline rounds : ℕ) (t : RawTransport N)
      → StepsTo sys t (frames_until sys over adp position w e deadline rounds t)
  unfolding frames_until
  frames_until-StepsTo adp position w e deadline zero t = stepped_to sys (count_timeout-Steps sys t)
  frames_until-StepsTo adp position w e deadline (suc rounds) t =
      let s = frame_round sys over adp position w e t in
      let round : Steps sys t s.0 = (frame_round-StepsTo adp position w e t).stepped in
      if_both (StepsTo sys t) (not (ltb (sys.now t.system) deadline))
        (stepped_to sys (count_timeout-Steps sys t))
        (step_both (StepsTo sys t) s.1 (λ outcome. stepped_to sys round)
          (then_to sys (Steps-trans sys round (sleep_ms-Steps sys 1 s.0))
            (frames_until-StepsTo adp position w e deadline rounds _)))

  pub mailbox_read_frame_expected-StepsTo :
      (adp position : ℕ) (w : Windows) (e : Expected) (t : RawTransport N)
      → StepsTo sys t (mailbox_read_frame_expected sys over adp position w e t)
  unfolding mailbox_read_frame_expected
  mailbox_read_frame_expected-StepsTo adp position w e t =
      frames_until-StepsTo adp position w e _ _ t
