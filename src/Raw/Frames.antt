-- ===== src/Raw/Frames.antt =====
-- The mailbox accesses of FoE and EoE, without retries: resolveMailboxWindow, mailboxWriteFrame and
-- mailboxReadFrameExpected of src/transport/linux_raw_socket_transport.cpp. Text that is left in the out
-- parameter for errors by a step that is passed over is passed on.
use openethercat.Base.{
  ℕ, zero, suc, ◌+◌, ◌-◌, ◌*◌, ◌%◌, Bool, ◌&&◌, not, List, ◌++◌, Option, none, some, String,
  if◌then◌else◌, ltb, ◌==◌, length, replicate,
}
use openethercat.Base.Bytes.{read_le16}
use openethercat.Mailbox.{
  EscMailboxFrame, mailbox_type_coe, encode_esc_mailbox, decode_esc_mailbox, parse_emergency,
}
use openethercat.Raw.{RawTransport, System, Outcome, done, failed}
use openethercat.Raw.Datagram.{command_aprd, command_apwr, next8, send_next}
use openethercat.Raw.Mailbox.{queue_emergency}
use openethercat.Raw.Retry.{sleep_ms, count_timeout}
use openethercat.Raw.SyncManagers.{SmWindow, register_sm_base}
use openethercat.Topology.Manager.{next64}

-- The windows of the mailbox.
pub record Windows : Type 0 where
  pub write_offset : ℕ
  pub write_size : ℕ
  pub read_offset : ℕ
  pub read_size : ℕ

-- What a reader waits for.
pub record Expected : Type 0 where
  pub counter : ℕ
  pub type : ℕ
  pub enforce_counter : Bool
  pub drain_emergencies : Bool
  pub timeout_error : String

pub data Step {ℓ} (A : Type ℓ) : Type ℓ where
  ends : Outcome A → Step A
  again : Step A

module _ {N : Type 0} (sys : System N) (over : ℕ → ℕ) where
  unfoldable pub read_mailbox_sm_window : ℕ → ℕ → RawTransport N → RawTransport N × Outcome SmWindow
  unfolding send_next read_le16
  read_mailbox_sm_window adp sm_index t =
      let (sent, result) =
        send_next sys over command_aprd adp ((register_sm_base + sm_index * 8) % 65536)
          (replicate 8 0) t in
      (
        sent,
        elim result [
          | failed why ↦ failed why
          | done reply ↦
              if ltb (length reply.payload) 4
              then failed "SM payload too short for mailbox"
              else done (record {
                start = read_le16 over reply.payload 0;
                size = read_le16 over reply.payload 2;
              })
        ],
      )

  abbrev configured : RawTransport N → Windows
  configured t = record {
    write_offset = t.mailbox_write_offset;
    write_size = t.mailbox_write_size;
    read_offset = t.mailbox_read_offset;
    read_size = t.mailbox_read_size;
  }

  -- The second value is the text that a failed read leaves behind.
  unfoldable pub resolve_mailbox_window : ℕ → RawTransport N → RawTransport N × (Windows × String)
  unfolding read_mailbox_sm_window
  resolve_mailbox_window adp t =
      let (read0, first) = read_mailbox_sm_window adp 0 t in
      let (read1, second) = read_mailbox_sm_window adp 1 read0 in
      elim first [
        | failed why ↦ (read0, (configured t, why))
        | done sm0 ↦ elim second [
          | failed why ↦ (read1, (configured t, why))
          | done sm1 ↦ (
            read1,
            (
              if ltb 0 sm0.size && ltb 0 sm1.size
                  then record {
                    write_offset = sm0.start;
                    write_size = sm0.size;
                    read_offset = sm1.start;
                    read_size = sm1.size;
                  }
                  else configured t,
              "",
            ),
          )
        ]
      ]

  -- The counter that was used up, and the text of an error.
  unfoldable pub mailbox_write_frame :
      ℕ → Windows → ℕ → List ℕ → RawTransport N → RawTransport N × (ℕ × Option String)
  unfolding send_next encode_esc_mailbox
  mailbox_write_frame adp w type payload t =
      let counter = t.mailbox_counter % 8 in
      let counted = record t { mailbox_counter = next8 t.mailbox_counter } in
      let bytes =
        encode_esc_mailbox (record {
          channel = 0;
          priority = 0;
          type = type;
          counter = counter;
          payload = payload;
        }) in
      let (sent, result) =
        send_next sys over command_apwr adp w.write_offset
          (bytes ++ replicate (w.write_size - length bytes) 0) counted in
      if ltb w.write_size (length bytes)
      then (counted, (counter, some "Mailbox payload exceeds write window"))
      else elim result [
        | failed why ↦ (sent, (counter, some why))
        | done reply ↦ (
          record sent {
            last_working_counter = reply.working_counter;
            diagnostics = record (sent.diagnostics) {
              mailbox_writes = next64 sent.diagnostics.mailbox_writes;
            };
          },
          (counter, none),
        )
      ]

  -- With `drain_emergencies` no CoE frame is ever taken, an emergency or not.
  unfoldable pub expected_frame :
      ℕ → Expected → EscMailboxFrame → RawTransport N → RawTransport N × Step EscMailboxFrame
  unfolding parse_emergency queue_emergency
  expected_frame slave_position e frame t =
      let d = t.diagnostics in
      if e.drain_emergencies && (frame.type == mailbox_type_coe)
      then elim (parse_emergency over frame.payload slave_position) [
        | some m ↦ (queue_emergency m t, again)
        | none ↦ (t, again)
      ]
      else if not (frame.type == e.type)
      then (t, again)
      else if e.enforce_counter && not (frame.counter % 8 == e.counter % 8)
      then (
        record t { diagnostics = record d { stale_counter_drops = next64 d.stale_counter_drops } },
        again,
      )
      else (
        record t { diagnostics = record d { matched_responses = next64 d.matched_responses } },
        ends (done frame),
      )

  unfoldable pub frame_round :
      ℕ → ℕ → Windows → Expected → RawTransport N → RawTransport N × Step EscMailboxFrame
  unfolding send_next decode_esc_mailbox expected_frame
  frame_round adp slave_position w e t =
      let (sent, result) =
        send_next sys over command_aprd adp w.read_offset (replicate w.read_size 0) t in
      elim result [
        | failed why ↦ (sent, ends (failed why))
        | done reply ↦
            let read = record sent {
              last_working_counter = reply.working_counter;
              diagnostics = record (sent.diagnostics) {
                mailbox_reads = next64 sent.diagnostics.mailbox_reads;
              };
            } in
            elim (decode_esc_mailbox over reply.payload) [
              | none ↦ (read, again)
              | some frame ↦ expected_frame slave_position e frame read
            ]
      ]

  -- Each round that goes on sleeps a millisecond.
  unfoldable pub frames_until :
      ℕ → ℕ → Windows → Expected → ℕ → ℕ → RawTransport N → RawTransport N × Outcome EscMailboxFrame
  unfolding frame_round count_timeout sleep_ms
  frames_until adp slave_position w e deadline zero t = (count_timeout t, failed (e.timeout_error))
  frames_until adp slave_position w e deadline (suc rounds) t =
      let (after, step) = frame_round adp slave_position w e t in
      let rest = frames_until adp slave_position w e deadline rounds (sleep_ms sys 1 after) in
      if not (ltb (sys.now t.system) deadline)
      then (count_timeout t, failed (e.timeout_error))
      else elim step [ ends outcome ↦ (after, outcome) | again ↦ rest ]

  unfoldable pub mailbox_read_frame_expected :
      ℕ → ℕ → Windows → Expected → RawTransport N → RawTransport N × Outcome EscMailboxFrame
  unfolding frames_until
  mailbox_read_frame_expected adp slave_position w e t =
      frames_until adp slave_position w e (sys.now t.system + t.timeout_ms * 1000000) t.timeout_ms t
