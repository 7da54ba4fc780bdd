-- ===== src/Raw/Steps/Messages.antt =====
-- Mailbox writes and reads as sequences of steps.
use openethercat.Base.{
  ℕ, zero, suc, ◌-◌, ◌%◌, refl, Bool, false, ◌&&◌, not, List, ◌++◌, Option, none, some, String, ltb,
  ◌==◌, length, replicate, if_both, option_both,
}
use openethercat.Mailbox.{
  EscMailboxFrame, mailbox_type_coe, encode_esc_mailbox, decode_esc_mailbox, parse_emergency,
}
use openethercat.Raw.{RawTransport, System, MailboxErrorClass}
use openethercat.Raw.Datagram.{command_aprd, command_apwr, next8}
use openethercat.Raw.Mailbox.{
  Route, is_poll, is_strict, is_full, probe_write, write_frame, mailbox_write_coe_payload,
}
use openethercat.Raw.Reading.{
  Waiting, Turn, return, continue, accept_frame, coe_frame, received_frame, read_round, one_round,
  read_timed_out, read_until, mailbox_read_matching_coe,
}
use openethercat.Raw.Retry.{Answer, retry_next}
use openethercat.Raw.SyncManagers.{read_sm_status_with_retry}
use openethercat.Raw.Steps.{
  Steps, none_yet, steps, frames, notes, counts, queues, Steps-trans, StepsTo, stepped_to, then_to,
}
use openethercat.Raw.Steps.Datagrams.{
  retry_next-StepsTo, read_sm_status-StepsTo, sleep_ms-Steps, count_timeout-Steps,
}

turn_both {ℓ κ} :
    {A : Type ℓ} {B : Type κ} (P : B → Type 0) (o : Turn A) {f : Answer A → B} {g : Waiting → B}
    → ((a : Answer A) → P (f a))
    → ((w : Waiting) → P (g w))
    → P (elim o [ return a ↦ f a | continue w ↦ g w ])
turn_both P (return a) p q = p a
turn_both P (continue w) p q = q w

module _ {N : Type 0} (sys : System N) (over : ℕ → ℕ) (r : Route) where
  probe_write-StepsTo :
      (probes : ℕ) (text : String) (t : RawTransport N)
      → StepsTo sys t (probe_write sys over r probes text t)
  unfolding probe_write
  probe_write-StepsTo zero text t = stepped_to sys none_yet
  probe_write-StepsTo (suc probes) text t =
      let s = read_sm_status_with_retry sys over r.force_timeout r.retry r.adp 0 text t in
      let read = (read_sm_status-StepsTo sys over r.force_timeout r.retry r.adp 0 text t).stepped in
      option_both (StepsTo sys t) s.1.value
        (if_both (StepsTo sys t) (is_strict r.mode) (stepped_to sys read) (stepped_to sys read))
        (λ status.
          if_both (StepsTo sys t) (is_full status)
            (then_to sys (Steps-trans sys read (sleep_ms-Steps sys 1 s.0))
              (probe_write-StepsTo probes s.1.text _))
            (stepped_to sys read))

  write_frame-StepsTo :
      (coe_payload : List ℕ) (text : String) (t : RawTransport N)
      → StepsTo sys t (write_frame sys over r coe_payload text t)
  unfolding write_frame
  write_frame-StepsTo coe_payload text t =
      let counted = record t { mailbox_counter = next8 t.mailbox_counter } in
      let bytes = encode_esc_mailbox (record {
        channel = 0;
        priority = 0;
        type = mailbox_type_coe;
        counter = t.mailbox_counter % 8;
        payload = coe_payload;
      }) in
      let padded = bytes ++ replicate (r.write_size - length bytes) 0 in
      let s =
        retry_next sys over r.force_timeout r.retry command_apwr r.adp r.write_offset padded text
          counted in
      let begun : Steps sys t counted = steps none_yet (frames t) in
      let sent : Steps sys t s.0 =
        Steps-trans sys begun
          (retry_next-StepsTo sys over r.force_timeout r.retry r.adp command_apwr r.write_offset
            padded text counted).stepped in
      if_both (StepsTo sys t) (ltb r.write_size (length bytes)) (stepped_to sys begun) (
        option_both (StepsTo sys t) s.1.value (stepped_to sys sent) (λ reply. stepped_to sys (
          steps (steps sent (counts s.0 _ (refl, refl, refl, refl, refl, refl, refl, refl)))
            (notes _ reply.working_counter))))

  pub mailbox_write_coe_payload-StepsTo :
      (coe_payload : List ℕ) (text : String) (t : RawTransport N)
      → StepsTo sys t (mailbox_write_coe_payload sys over r coe_payload text t)
  unfolding mailbox_write_coe_payload
  mailbox_write_coe_payload-StepsTo coe_payload text t =
      let p = probe_write sys over r 3 text t in
      let probed = (probe_write-StepsTo 3 text t).stepped in
      if_both (StepsTo sys t) (is_poll r.mode) (write_frame-StepsTo coe_payload text t) (
        option_both (StepsTo sys t) p.1.0 (stepped_to sys probed) (λ seen.
          if_both (StepsTo sys t) (is_strict r.mode && not seen) (stepped_to sys probed)
            (then_to sys probed (write_frame-StepsTo coe_payload p.1.1 p.0))))

module _ {N : Type 0} (sys : System N) (over : ℕ → ℕ) {A : Type 0}
    (accept : EscMailboxFrame → Option A) (r : Route) (expected : ℕ) where
  accept_frame-StepsTo :
      (w : Waiting) (frame : EscMailboxFrame) (t : RawTransport N)
      → StepsTo sys t (accept_frame sys over accept w frame t)
  unfolding accept_frame
  accept_frame-StepsTo w frame t =
      option_both (StepsTo sys t) (accept frame)
        (stepped_to sys
          (steps none_yet (counts t _ (refl, refl, refl, refl, refl, refl, refl, refl))))
        (λ a.
          stepped_to sys
            (steps none_yet (counts t _ (refl, refl, refl, refl, refl, refl, refl, refl))))

  coe_frame-StepsTo :
      (w : Waiting) (frame : EscMailboxFrame) (t : RawTransport N)
      → StepsTo sys t (coe_frame sys over accept r expected w frame t)
  unfolding coe_frame
  coe_frame-StepsTo w frame t =
      option_both (StepsTo sys t) (parse_emergency over frame.payload r.slave_position)
        (if_both (StepsTo sys t) (not (frame.counter % 8 == expected % 8))
          (stepped_to sys
            (steps none_yet (counts t _ (refl, refl, refl, refl, refl, refl, refl, refl))))
          (accept_frame-StepsTo w frame t))
        (λ m. stepped_to sys (steps none_yet (queues t m)))

  received_frame-StepsTo :
      (w : Waiting) (payload : List ℕ) (t : RawTransport N)
      → StepsTo sys t (received_frame sys over accept r expected w payload t)
  unfolding received_frame
  received_frame-StepsTo w payload t =
      option_both (StepsTo sys t) (decode_esc_mailbox over payload) (stepped_to sys none_yet)
        (λ frame.
          if_both (StepsTo sys t) (not (frame.type == mailbox_type_coe)) (stepped_to sys none_yet)
            (coe_frame-StepsTo w frame t))

  read_round-StepsTo :
      (w : Waiting) (t : RawTransport N) → StepsTo sys t (read_round sys over accept r expected w t)
  unfolding read_round
  read_round-StepsTo w t =
      let s =
        retry_next sys over r.force_timeout r.retry command_aprd r.adp r.read_offset
          (replicate r.read_size 0) w.text t in
      let read : Steps sys t s.0 =
        (retry_next-StepsTo sys over r.force_timeout r.retry r.adp command_aprd r.read_offset
          (replicate r.read_size 0) w.text t).stepped in
      option_both (StepsTo sys t) s.1.value (stepped_to sys read) (λ reply.
        then_to sys
          (steps (steps read (counts s.0 _ (refl, refl, refl, refl, refl, refl, refl, refl)))
            (notes _ reply.working_counter))
          (received_frame-StepsTo (record w { text = s.1.text }) reply.payload _))

  pub one_round-StepsTo :
      (w : Waiting) (t : RawTransport N) → StepsTo sys t (one_round sys over accept r expected w t)
  unfolding one_round
  one_round-StepsTo w t =
      let s = read_sm_status_with_retry sys over r.force_timeout r.retry r.adp 1 w.text t in
      let asked : Steps sys t s.0 =
        (read_sm_status-StepsTo sys over r.force_timeout r.retry r.adp 1 w.text t).stepped in
      let has_data : Bool = elim (s.1.value) [ none ↦ false | some status ↦ is_full status ] in
      if_both (StepsTo sys t) (is_poll r.mode) (read_round-StepsTo w t) (
        if_both (StepsTo sys t) (is_strict r.mode)
          (option_both (StepsTo sys t) s.1.value (stepped_to sys asked) (λ status.
            if_both (StepsTo sys t) has_data (then_to sys asked (read_round-StepsTo _ s.0))
              (stepped_to sys asked)))
          (if_both (StepsTo sys t) has_data (then_to sys asked (read_round-StepsTo _ s.0)) (
            if_both (StepsTo sys t) (w.idle_polls % 3 == 0)
              (then_to sys asked (read_round-StepsTo _ s.0)) (stepped_to sys asked))))

  read_until-StepsTo :
      (deadline rounds : ℕ) (w : Waiting) (t : RawTransport N)
      → StepsTo sys t (read_until sys over accept r expected deadline rounds w t)
  unfolding read_until read_timed_out
  read_until-StepsTo deadline zero w t = stepped_to sys (count_timeout-Steps sys t)
  read_until-StepsTo deadline (suc rounds) w t =
      let s = one_round sys over accept r expected w t in
      let round : Steps sys t s.0 = (one_round-StepsTo w t).stepped in
      if_both (StepsTo sys t) (not (ltb (sys.now t.system) deadline))
        (stepped_to sys (count_timeout-Steps sys t))
        (turn_both (StepsTo sys t) s.1 (λ answer. stepped_to sys round)
          (λ waiting.
            then_to sys (Steps-trans sys round (sleep_ms-Steps sys 1 s.0))
              (read_until-StepsTo deadline rounds waiting _)))

  pub mailbox_read_matching_coe-StepsTo :
      (cls : MailboxErrorClass) (text : String) (t : RawTransport N)
      → StepsTo sys t (mailbox_read_matching_coe sys over accept r expected cls text t)
  unfolding mailbox_read_matching_coe
  mailbox_read_matching_coe-StepsTo cls text t = read_until-StepsTo _ _ _ t
