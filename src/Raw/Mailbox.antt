-- ===== src/Raw/Mailbox.antt =====
-- Writing a CoE message to a slave's mailbox and reading the one that answers it:
-- mailboxWriteCoePayload and mailboxReadMatchingCoe of
-- src/transport/linux_raw_socket_transport_mailbox.cpp. The predicate on frames gives the value that the
-- source's captures in its variables.
use openethercat.Base.{
  ℕ, zero, suc, ◌-◌, ◌/◌, ◌%◌, Bool, true, false, ◌&&◌, not, List, [], ◌∷◌, ◌++◌, Option, none,
  some, String, if◌then◌else◌, ltb, ◌==◌, length, replicate, drop,
}
use openethercat.Mailbox.{EmergencyMessage, mailbox_type_coe, encode_esc_mailbox}
use openethercat.Raw.{
  RawTransport, System, MailboxStatusMode, strict, poll, MailboxErrorClass, busy_class, parse_class,
}
use openethercat.Raw.Datagram.{command_apwr, next8}
use openethercat.Raw.Retry.{Answer, MailboxRetryConfig, retry_next, sleep_ms}
use openethercat.Raw.SyncManagers.{read_sm_status_with_retry}
use openethercat.Topology.Manager.{next64}

-- What one SDO transaction fixes for all its mailbox accesses.
pub record Route : Type 0 where
  pub adp : ℕ
  pub slave_position : ℕ
  pub write_offset : ℕ
  pub write_size : ℕ
  pub read_offset : ℕ
  pub read_size : ℕ
  pub mode : MailboxStatusMode
  pub force_timeout : Bool
  pub retry : MailboxRetryConfig

abbrev pub is_poll : MailboxStatusMode → Bool
is_poll poll = true
is_poll mode = false

abbrev pub is_strict : MailboxStatusMode → Bool
is_strict strict = true
is_strict mode = false

-- Bit 3 of the status: the mailbox is full.
abbrev pub is_full : ℕ → Bool
is_full status = not (status / 8 % 2 == 0)

abbrev pub refused {ℓ} : {A : Type ℓ} → MailboxErrorClass → String → Answer A
refused cls why = record { value = none; error_class = cls; text = why }

module _ {N : Type 0} where
  -- The oldest emergency makes room for the newest.
  unfoldable pub queue_emergency : EmergencyMessage → RawTransport N → RawTransport N
  queue_emergency m t =
      let full = not (ltb (length t.emergencies) t.emergency_queue_limit) in
      let d = t.diagnostics in
      record t {
        emergencies = (if full then drop 1 t.emergencies else t.emergencies) ++ (m ∷ []);
        diagnostics = record d {
          emergency_dropped = if full then next64 d.emergency_dropped else d.emergency_dropped;
          emergency_queued = next64 d.emergency_queued;
        };
      }

module _ {N : Type 0} (sys : System N) (over : ℕ → ℕ) where
  -- At most `probes` looks at the status before a write: whether the mailbox was seen empty, or none
  -- if strict mode ends the write, with the text.
  unfoldable pub probe_write :
      Route → ℕ → String → RawTransport N → RawTransport N × (Option Bool × String)
  unfolding read_sm_status_with_retry sleep_ms
  probe_write r zero text t = (t, (some false, text))
  probe_write r (suc probes) text t =
      let (read, a) = read_sm_status_with_retry sys over r.force_timeout r.retry r.adp 0 text t in
      let again = probe_write r probes a.text (sleep_ms sys 1 read) in
      elim (a.value) [
        | none ↦
            if is_strict r.mode
            then (read, (none, "SM0 status read failed in strict mode"))
            else (read, (some false, a.text))
        | some status ↦ if is_full status then again else (read, (some true, a.text))
      ]

  -- The frame with the next of the eight counters.
  unfoldable pub write_frame : Route → List ℕ → String → RawTransport N → RawTransport N × Answer ℕ
  unfolding retry_next encode_esc_mailbox
  write_frame r coe_payload text t =
      let counter = t.mailbox_counter % 8 in
      let counted = record t { mailbox_counter = next8 t.mailbox_counter } in
      let bytes = encode_esc_mailbox (record {
        channel = 0;
        priority = 0;
        type = mailbox_type_coe;
        counter = counter;
        payload = coe_payload;
      }) in
      let (sent, a) =
        retry_next sys over r.force_timeout r.retry command_apwr r.adp r.write_offset
          (bytes ++ replicate (r.write_size - length bytes) 0) text counted in
      if ltb r.write_size (length bytes)
      then (
        counted,
        refused parse_class "CoE mailbox payload too large for configured write mailbox",
      )
      else elim (a.value) [
        | none ↦ (sent, refused a.error_class a.text)
        | some reply ↦ (
          record sent {
            diagnostics = record (sent.diagnostics) {
              mailbox_writes = next64 sent.diagnostics.mailbox_writes;
            };
            last_working_counter = reply.working_counter;
          },
          record { value = some counter; error_class = a.error_class; text = a.text },
        )
      ]

  -- The value is the counter that the answer will carry.
  unfoldable pub mailbox_write_coe_payload :
      Route → List ℕ → String → RawTransport N → RawTransport N × Answer ℕ
  unfolding probe_write write_frame
  mailbox_write_coe_payload r coe_payload text t =
      let (probed, (ready, left)) = probe_write r 3 text t in
      if is_poll r.mode then write_frame r coe_payload text t else elim ready [
        | none ↦ (probed, refused busy_class left)
        | some seen ↦
            if is_strict r.mode && not seen
            then (probed, refused busy_class "SM0 mailbox remained busy in strict mode")
            else write_frame r coe_payload left probed
      ]
