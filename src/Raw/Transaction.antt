-- ===== src/Raw/Transaction.antt =====
-- What sdoUpload and sdoDownload of src/transport/linux_raw_socket_transport.cpp share: the counting of
-- transactions and of their errors, the mailbox windows, and one request with its answer.
use text.Mathlib.Text.{◌==◌ as str_eq}
use openethercat.Base.{
  ℕ, Bool, true, false, ◌&&◌, ◌||◌, not, List, Option, none, some, String, if◌then◌else◌, ltb, ◌==◌,
}
use openethercat.Mailbox.{EscMailboxFrame}
use openethercat.Raw.{
  RawTransport, System, MailboxErrorClass, no_class, parse_class, abort_class, unknown_class,
}
use openethercat.Raw.Datagram.{to_auto_increment_address}
use openethercat.Raw.Errors.{
  first_class, classify_mailbox_error, increment_class, is_ignorable_sdo_parse_error,
}
use openethercat.Raw.Mailbox.{Route, refused, mailbox_write_coe_payload}
use openethercat.Raw.Reading.{mailbox_read_matching_coe}
use openethercat.Raw.Retry.{Answer, mailbox_retry_config_from_env}
use openethercat.Raw.SyncManagers.{read_sm_window_with_retry}
use openethercat.Sdo.{AckResponse}
use openethercat.Topology.Manager.{next64}
use openethercat.Transport.{SdoCall}

-- What the predicate on frames captures: a response, or an error that cannot be passed over.
pub data Captured {ℓ} (A : Type ℓ) : Type ℓ where
  taken : A → Captured A
  fatal : String → Captured A

-- A request comes to a response that reports success, with the text left behind, or to an error: its
-- class, where it is known by now, its text and the abort code.
pub data Settled {ℓ} (A : Type ℓ) : Type ℓ where
  settled : A → String → Settled A
  stopped : MailboxErrorClass → String → ℕ → Settled A

-- The three predicates that take a response on success or abort.
unfoldable pub capture {ℓ} : {A : Type ℓ} → AckResponse → A → Option (Captured A)
unfolding is_ignorable_sdo_parse_error
capture ack a =
    if ack.success || str_eq ack.error "SDO abort"
    then some (taken a)
    else if not (is_ignorable_sdo_parse_error ack.error)
    then some (fatal ack.error)
    else none

unfoldable pub settle {ℓ} : {A : Type ℓ} → (A → AckResponse) → Answer (Captured A) → Settled A
settle view a = elim (a.value) [
  | none ↦ stopped a.error_class a.text 0
  | some captured ↦ elim captured [
    | fatal why ↦ stopped parse_class why 0
    | taken p ↦
        if (view p).success
        then settled p a.text
        else stopped
            (if not ((view p).abort_code == 0) || str_eq (view p).error "SDO abort"
              then abort_class
              else no_class)
            (view p).error (view p).abort_code
  ]
]

-- The class that a failure is counted in: unknown, if nothing is known.
unfoldable pub failure_class : MailboxErrorClass → String → MailboxErrorClass
unfolding first_class classify_mailbox_error
failure_class known text =
    first_class (first_class known (classify_mailbox_error text)) unknown_class

module _ {N : Type 0} where
  unfoldable pub start_transaction : RawTransport N → RawTransport N
  start_transaction t = record t {
    diagnostics = record (t.diagnostics) {
      transactions_started = next64 t.diagnostics.transactions_started;
    };
  }

  unfoldable pub fail_transaction : MailboxErrorClass → String → RawTransport N → RawTransport N
  unfolding failure_class increment_class
  fail_transaction known text t =
      let cls = failure_class known text in
      let counted = increment_class cls t.diagnostics in
      record t {
        last_error_class = cls;
        diagnostics = record counted { transactions_failed = next64 counted.transactions_failed };
      }

  unfoldable pub fail_call :
      List ℕ → MailboxErrorClass → String → ℕ → RawTransport N → RawTransport N × SdoCall
  unfolding fail_transaction
  fail_call bytes known text code t = (
    fail_transaction known text t,
    record { ok = false; bytes = bytes; abort_code = code; error = text },
  )

module _ {N : Type 0} (sys : System N) (over : ℕ → ℕ) where
  abbrev pub force_timeout_test : Bool
  force_timeout_test = elim (sys.getenv "OEC_MAILBOX_TEST_FORCE_TIMEOUT") [
    | none ↦ false
    | some text ↦ true
  ]

  -- The windows as configured.
  unfoldable pub configured_route : ℕ → RawTransport N → Route
  unfolding to_auto_increment_address mailbox_retry_config_from_env
  configured_route position t = record {
    adp = to_auto_increment_address position;
    slave_position = position;
    write_offset = t.mailbox_write_offset;
    write_size = t.mailbox_write_size;
    read_offset = t.mailbox_read_offset;
    read_size = t.mailbox_read_size;
    mode = t.status_mode;
    force_timeout = force_timeout_test;
    retry = mailbox_retry_config_from_env sys;
  }

  -- The windows of sync managers 0 and 1, where both can be read and neither is empty.
  unfoldable pub resolve_route : Route → String → RawTransport N → RawTransport N × (Route × String)
  unfolding read_sm_window_with_retry
  resolve_route r text t =
      let (read0, a0) = read_sm_window_with_retry sys over r.force_timeout r.retry r.adp 0 text t in
      let (read1, a1) =
        read_sm_window_with_retry sys over r.force_timeout r.retry r.adp 1 a0.text read0 in
      elim (a0.value) [
        | none ↦ (read0, (r, a0.text))
        | some sm0 ↦ elim (a1.value) [
          | none ↦ (read1, (r, a1.text))
          | some sm1 ↦ (
            read1,
            (
              if ltb 0 sm0.size && ltb 0 sm1.size
                  then record r {
                    write_offset = sm0.start;
                    write_size = sm0.size;
                    read_offset = sm1.start;
                    read_size = sm1.size;
                  }
                  else r,
              a1.text,
            ),
          )
        ]
      ]

  -- A request written, and its answer read.
  unfoldable pub ask :
      {A : Type 0}
      → Route
      → List ℕ
      → (EscMailboxFrame → Option A)
      → String
      → RawTransport N
      → RawTransport N × Answer A
  unfolding mailbox_write_coe_payload mailbox_read_matching_coe
  ask r request accept text t =
      let (written, w) = mailbox_write_coe_payload sys over r request text t in
      elim (w.value) [
        | none ↦ (written, refused w.error_class w.text)
        | some counter ↦ mailbox_read_matching_coe sys over accept r counter no_class w.text written
      ]
