-- ===== src/Raw/Reading.antt =====
-- Waiting for the CoE message that answers a request: mailboxReadMatchingCoe of
-- src/transport/linux_raw_socket_transport_mailbox.cpp. The predicate on frames gives, where it is true,
-- the value that the source's captures in its variables.
use openethercat.Base.{
  ℕ, zero, suc, ◌+◌, ◌*◌, ◌%◌, Bool, false, not, List, Option, none, some, String, if◌then◌else◌,
  ltb, ◌==◌, replicate,
}
use openethercat.Mailbox.{EscMailboxFrame, mailbox_type_coe, decode_esc_mailbox, parse_emergency}
use openethercat.Raw.{
  RawTransport, System, MailboxErrorClass, timeout_class, busy_class, parse_class, stale_class,
}
use openethercat.Raw.Datagram.{command_aprd}
use openethercat.Raw.Errors.{first_class}
use openethercat.Raw.Mailbox.{Route, is_poll, is_strict, is_full, refused, queue_emergency}
use openethercat.Raw.Retry.{Answer, retry_next, sleep_ms, count_timeout}
use openethercat.Raw.SyncManagers.{read_sm_status_with_retry}
use openethercat.Topology.Manager.{next64}

-- What the variables of the loop are when a round begins.
pub record Waiting : Type 0 where
  pub idle_polls : ℕ
  pub error_class : MailboxErrorClass
  pub text : String

-- A round of the loop returns, or goes on to the next one.
pub data Turn {ℓ} (A : Type ℓ) : Type ℓ where
  return : Answer A → Turn A
  continue : Waiting → Turn A

module _ {N : Type 0} (sys : System N) (over : ℕ → ℕ) {A : Type 0}
    (accept : EscMailboxFrame → Option A) where
  unfoldable pub accept_frame : Waiting → EscMailboxFrame → RawTransport N → RawTransport N × Turn A
  accept_frame w frame t =
      let d = t.diagnostics in
      elim (accept frame) [
        | none ↦ (
          record t { diagnostics = record d { parse_rejects = next64 d.parse_rejects } },
          continue (record w { error_class = parse_class }),
        )
        | some a ↦ (
          record t { diagnostics = record d { matched_responses = next64 d.matched_responses } },
          return (record { value = some a; error_class = w.error_class; text = w.text }),
        )
      ]

  -- A frame of the CoE type: an emergency is queued, an answer to an older request is dropped.
  unfoldable pub coe_frame :
      Route → ℕ → Waiting → EscMailboxFrame → RawTransport N → RawTransport N × Turn A
  unfolding parse_emergency queue_emergency accept_frame
  coe_frame r expected_counter w frame t =
      let d = t.diagnostics in
      elim (parse_emergency over frame.payload r.slave_position) [
        | some m ↦ (queue_emergency m t, continue w)
        | none ↦
            if not (frame.counter % 8 == expected_counter % 8)
            then (
              record t {
                diagnostics = record d { stale_counter_drops = next64 d.stale_counter_drops };
              },
              continue (record w { error_class = stale_class }),
            )
            else accept_frame w frame t
      ]

  unfoldable pub received_frame :
      Route → ℕ → Waiting → List ℕ → RawTransport N → RawTransport N × Turn A
  unfolding decode_esc_mailbox coe_frame
  received_frame r expected_counter w payload t = elim (decode_esc_mailbox over payload) [
    | none ↦ (t, continue w)
    | some frame ↦
        if not (frame.type == mailbox_type_coe)
        then (t, continue w)
        else coe_frame r expected_counter w frame t
  ]

  unfoldable pub read_round : Route → ℕ → Waiting → RawTransport N → RawTransport N × Turn A
  unfolding retry_next received_frame
  read_round r expected_counter w t =
      let (read, a) =
        retry_next sys over r.force_timeout r.retry command_aprd r.adp r.read_offset
          (replicate r.read_size 0) w.text t in
      elim (a.value) [
        | none ↦ (read, return (refused a.error_class a.text))
        | some reply ↦
            received_frame r expected_counter (record w { text = a.text }) reply.payload
              (record read {
                diagnostics = record (read.diagnostics) {
                  mailbox_reads = next64 read.diagnostics.mailbox_reads;
                };
                last_working_counter = reply.working_counter;
              })
      ]

  -- The status is asked before the read, unless the mode is to poll. In hybrid mode every third look
  -- that sees no data reads all the same.
  unfoldable pub one_round : Route → ℕ → Waiting → RawTransport N → RawTransport N × Turn A
  unfolding read_sm_status_with_retry read_round
  one_round r expected_counter w t =
      let (asked, a) =
        read_sm_status_with_retry sys over r.force_timeout r.retry r.adp 1 w.text t in
      let seen = record w { text = a.text } in
      let has_data : Bool = elim (a.value) [ none ↦ false | some status ↦ is_full status ] in
      let counted = record seen { idle_polls = w.idle_polls + 1 } in
      if is_poll r.mode
      then read_round r expected_counter w t
      else if is_strict r.mode
      then elim (a.value) [
        | none ↦ (asked, return (refused busy_class "SM1 status read failed in strict mode"))
        | some status ↦
            if has_data then read_round r expected_counter seen asked else (asked, continue seen)
      ]
      else if has_data
      then read_round r expected_counter seen asked
      else if w.idle_polls % 3 == 0
      then read_round r expected_counter counted asked
      else (asked, continue counted)

  unfoldable pub read_timed_out : Waiting → RawTransport N → RawTransport N × Answer A
  unfolding count_timeout first_class
  read_timed_out w t = (
    count_timeout t,
    refused (first_class w.error_class timeout_class) "Timed out waiting for CoE mailbox response",
  )

  -- Each round that goes on sleeps a millisecond.
  unfoldable pub read_until :
      Route → ℕ → ℕ → ℕ → Waiting → RawTransport N → RawTransport N × Answer A
  unfolding one_round read_timed_out sleep_ms
  read_until r expected_counter deadline zero w t = read_timed_out w t
  read_until r expected_counter deadline (suc rounds) w t =
      let (after, turn) = one_round r expected_counter w t in
      let rest = read_until r expected_counter deadline rounds in
      if not (ltb (sys.now t.system) deadline) then read_timed_out w t else elim turn [
        | return answer ↦ (after, answer)
        | continue waiting ↦ rest waiting (sleep_ms sys 1 after)
      ]

  -- No more rounds than milliseconds are begun before the deadline.
  unfoldable pub mailbox_read_matching_coe :
      Route → ℕ → MailboxErrorClass → String → RawTransport N → RawTransport N × Answer A
  unfolding read_until
  mailbox_read_matching_coe r expected_counter cls text t =
      read_until r expected_counter (sys.now t.system + t.timeout_ms * 1000000) t.timeout_ms
        (record { idle_polls = 0; error_class = cls; text = text }) t
