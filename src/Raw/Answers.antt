-- ===== src/Raw/Answers.antt =====
-- Which mailbox frames the reader of src/transport/linux_raw_socket_transport_mailbox.cpp takes as the
-- answer to a request.
use openethercat.Base.{
  ℕ, zero, suc, ◌%◌, ◌≡◌, refl, Bool, false, not, Option, none, some, String, ltb, ◌==◌, replicate,
  arith, if_both, option_both, if_cases,
}
use openethercat.Mailbox.{EscMailboxFrame, mailbox_type_coe, decode_esc_mailbox, parse_emergency}
use openethercat.Raw.{RawTransport, System, MailboxErrorClass}
use openethercat.Raw.Datagram.{command_aprd}
use openethercat.Raw.Mailbox.{Route, is_poll, is_strict, is_full}
use openethercat.Raw.Reading.{
  Waiting, Turn, return, continue, accept_frame, coe_frame, received_frame, read_round, one_round,
  read_timed_out, read_until, mailbox_read_matching_coe,
}
use openethercat.Raw.Replies.{option_cases}
use openethercat.Raw.Retry.{Answer, retry_next, sleep_ms}
use openethercat.Raw.SyncManagers.{read_sm_status_with_retry}

turn_cases {ℓ} :
    {A B : Type 0} (P : B → Type ℓ) (o : Turn A) {f : Answer A → B} {g : Waiting → B}
    → ((a : Answer A) → o ≡ return a → P (f a))
    → ((w : Waiting) → P (g w))
    → P (elim o [ return a ↦ f a | continue w ↦ g w ])
turn_cases P (return a) p q = p a refl
turn_cases P (continue w) p q = q w

module _ {N : Type 0} (sys : System N) (over : ℕ → ℕ) {A : Type 0}
    (accept : EscMailboxFrame → Option A) (r : Route) (expected : ℕ) where
  -- The value comes from a CoE frame with the counter of the request, which is no emergency, and which
  -- the predicate accepts.
  abbrev Source : A → Type 0
  Source a =
      (frame : EscMailboxFrame) × (accept frame ≡ some a)
      × (frame.type ≡ mailbox_type_coe)
      × (frame.counter % 8 ≡ expected % 8)
      × (parse_emergency over frame.payload r.slave_position ≡ none)

  IsSourced : Answer A → Type 0
  IsSourced answer = (a : A) → answer.value ≡ some a → Source a

  Yields : RawTransport N × Turn A → Type 0
  Yields s = (answer : Answer A) → s.1 ≡ return answer → IsSourced answer

  coe_frame-Yields :
      (w : Waiting) (frame : EscMailboxFrame) (t : RawTransport N)
      → frame.type ≡ mailbox_type_coe
      → Yields (coe_frame sys over accept r expected w frame t)
  unfolding coe_frame accept_frame Yields IsSourced
  coe_frame-Yields w frame t typed =
      option_cases Yields (parse_emergency over frame.payload r.slave_position)
        (λ calm.
          if_cases Yields (not (frame.counter % 8 == expected % 8)) (λ _ answer e a h. cc)
            (λ same.
              option_cases Yields (accept frame) (λ _ answer e a h. cc)
                (λ b taken answer e a h. (frame, cc, typed, ground arith, calm))))
        (λ m _ answer e a h. cc)

  read_round-Yields :
      (w : Waiting) (t : RawTransport N) → Yields (read_round sys over accept r expected w t)
  unfolding read_round received_frame Yields IsSourced
  read_round-Yields w t =
      let s =
        retry_next sys over r.force_timeout r.retry command_aprd r.adp r.read_offset
          (replicate r.read_size 0) w.text t in
      option_both Yields s.1.value (λ answer e a h. cc)
        (λ reply.
          option_both Yields (decode_esc_mailbox over reply.payload) (λ answer e a h. cc)
            (λ frame.
              if_cases Yields (not (frame.type == mailbox_type_coe)) (λ _ answer e a h. cc)
                (λ typed. coe_frame-Yields _ frame _ (ground arith))))

  one_round-Yields :
      (w : Waiting) (t : RawTransport N) → Yields (one_round sys over accept r expected w t)
  unfolding one_round Yields IsSourced
  one_round-Yields w t =
      let s = read_sm_status_with_retry sys over r.force_timeout r.retry r.adp 1 w.text t in
      let has_data : Bool = elim (s.1.value) [ none ↦ false | some status ↦ is_full status ] in
      if_both Yields (is_poll r.mode) (read_round-Yields w t) (
        if_both Yields (is_strict r.mode)
          (option_both Yields s.1.value (λ answer e a h. cc)
            (λ status. if_both Yields has_data (read_round-Yields _ s.0) (λ answer e a h. cc)))
          (if_both Yields has_data (read_round-Yields _ s.0) (
            if_both Yields (w.idle_polls % 3 == 0) (read_round-Yields _ s.0) (λ answer e a h. cc))))

  Answers : RawTransport N × Answer A → Type 0
  Answers s = IsSourced s.1

  read_until-Answers :
      (deadline rounds : ℕ) (w : Waiting) (t : RawTransport N)
      → Answers (read_until sys over accept r expected deadline rounds w t)
  unfolding read_until read_timed_out Answers IsSourced Yields
  read_until-Answers deadline zero w t = λ a h. cc
  read_until-Answers deadline (suc rounds) w t =
      let s = one_round sys over accept r expected w t in
      if_both Answers (not (ltb (sys.now t.system) deadline)) (λ a h. cc)
        (turn_cases Answers s.1 (one_round-Yields w t)
          (λ waiting. read_until-Answers deadline rounds waiting (sleep_ms sys 1 s.0)))

-- A value that the reader returns was taken from a CoE mailbox frame that carries the counter of the
-- request, is no emergency, and is accepted by the predicate with that value.
pub mailbox_read_matching_coe-source :
    {N A : Type 0} (sys : System N) (over : ℕ → ℕ) (accept : EscMailboxFrame → Option A) (r : Route)
    (expected : ℕ) (cls : MailboxErrorClass) (text : String) (t : RawTransport N) (a : A)
    → (mailbox_read_matching_coe sys over accept r expected cls text t).1.value ≡ some a
    → (frame : EscMailboxFrame) × (accept frame ≡ some a)
      × (frame.type ≡ mailbox_type_coe)
      × (frame.counter % 8 ≡ expected % 8)
      × (parse_emergency over frame.payload r.slave_position ≡ none)
unfolding mailbox_read_matching_coe Answers IsSourced
mailbox_read_matching_coe-source sys over accept r expected cls text t =
    read_until-Answers sys over accept r expected _ _ _ t
