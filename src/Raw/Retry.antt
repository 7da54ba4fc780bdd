-- ===== src/Raw/Retry.antt =====
-- The datagrams of the CoE mailbox, tried again on a transient error: mailboxDatagramWithRetry of
-- src/transport/linux_raw_socket_transport.cpp, with the tuning from the environment of
-- src/transport/linux_raw_socket_transport_mailbox.cpp.
use openethercat.Base.{
  ℕ, zero, suc, ◌*◌, Bool, not, List, Option, none, some, String, if◌then◌else◌, ltb,
}
use openethercat.Clock.{ℤ, pos, negsuc}
use openethercat.Frame.{DatagramRequest}
use openethercat.Raw.{
  RawTransport, System, done, failed, MailboxErrorClass, no_class, timeout_class,
}
use openethercat.Raw.Datagram.{Reply, next8, send_datagram_request}
use openethercat.Raw.Errors.{backoff_ms, classify_mailbox_error, is_transient}
use openethercat.Topology.Manager.{next64}

-- A call's value, if it succeeds, and what it leaves in the out parameters for the class and the text
-- of an error. The text may stay from a step whose failure was passed over.
pub record Answer {ℓ} (A : Type ℓ) : Type ℓ where
  pub value : Option A
  pub error_class : MailboxErrorClass
  pub text : String

pub record MailboxRetryConfig : Type 0 where
  pub retries : ℕ
  pub backoff_base_ms : ℕ
  pub backoff_max_ms : ℕ

-- `std::max(least, std::stoi(env))`, and the default where there is no number.
abbrev at_least_int : ℕ → ℤ → ℕ
at_least_int least (pos n) = if ltb n least then least else n
at_least_int least (negsuc n) = least

abbrev int_from_env : {N : Type 0} → System N → String → ℕ → ℕ → ℕ
int_from_env sys name least fallback = elim (sys.getenv name) [
  | none ↦ fallback
  | some text ↦ elim (sys.stoi text) [ none ↦ fallback | some n ↦ at_least_int least n ]
]

module _ {N : Type 0} where
  unfoldable pub count_timeout : RawTransport N → RawTransport N
  count_timeout t = record t {
    diagnostics = record (t.diagnostics) {
      mailbox_timeouts = next64 t.diagnostics.mailbox_timeouts;
    };
  }

  -- After the last attempt, or an error that is not transient.
  unfoldable pub give_up : String → RawTransport N → RawTransport N × Answer Reply
  unfolding is_transient classify_mailbox_error count_timeout
  give_up why t = (
    if is_transient why then count_timeout t else t,
    record {
      value = none;
      error_class = elim (classify_mailbox_error why) [
        | no_class ↦ if is_transient why then timeout_class else no_class
        | other ↦ other
      ];
      text = why;
    },
  )

module _ {N : Type 0} (sys : System N) where
  unfoldable pub mailbox_retry_config_from_env : MailboxRetryConfig
  mailbox_retry_config_from_env =
      let base = int_from_env sys "OEC_MAILBOX_BACKOFF_BASE_MS" 1 1 in
      record {
        retries = int_from_env sys "OEC_MAILBOX_RETRIES" 0 2;
        backoff_base_ms = base;
        backoff_max_ms = int_from_env sys "OEC_MAILBOX_BACKOFF_MAX_MS" base 20;
      }

  unfoldable pub sleep_ms : ℕ → RawTransport N → RawTransport N
  sleep_ms ms t = record t { system = sys.sleep (ms * 1000000) t.system }

  -- A retry is counted, and waited for.
  unfoldable pub back_off : MailboxRetryConfig → ℕ → RawTransport N → RawTransport N
  unfolding sleep_ms backoff_ms
  back_off config attempt t =
      sleep_ms (backoff_ms attempt config.backoff_base_ms config.backoff_max_ms) (record t {
        diagnostics = record (t.diagnostics) {
          datagram_retries = next64 t.diagnostics.datagram_retries;
        };
      })

  -- The test switch: every attempt times out, without a datagram.
  unfoldable pub forced_timeout :
      MailboxRetryConfig → ℕ → ℕ → RawTransport N → RawTransport N × Answer Reply
  unfolding back_off count_timeout
  forced_timeout config attempt zero t = (
    count_timeout t,
    record {
      value = none;
      error_class = timeout_class;
      text = "Timed out waiting for CoE mailbox response";
    },
  )
  forced_timeout config attempt (suc left) t =
      forced_timeout config (suc attempt) left (back_off config attempt t)

  module _ (over : ℕ → ℕ) where
    -- `left` more attempts may follow the one that begins.
    unfoldable pub attempts :
        MailboxRetryConfig
        → DatagramRequest
        → String
        → ℕ
        → ℕ
        → RawTransport N
        → RawTransport N × Answer Reply
    unfolding send_datagram_request give_up is_transient back_off
    attempts config request text attempt zero t =
        let (sent, result) = send_datagram_request sys over request t in
        elim result [
          | done reply ↦ (sent, record { value = some reply; error_class = no_class; text = text })
          | failed why ↦ give_up why sent
        ]
    attempts config request text attempt (suc left) t =
        let (sent, result) = send_datagram_request sys over request t in
        let rest = attempts config request text (suc attempt) left in
        elim result [
          | done reply ↦ (sent, record { value = some reply; error_class = no_class; text = text })
          | failed why ↦
              if not (is_transient why)
              then give_up why sent
              else rest (back_off config attempt sent)
        ]

    unfoldable pub mailbox_datagram_with_retry :
        Bool
        → MailboxRetryConfig
        → DatagramRequest
        → String
        → RawTransport N
        → RawTransport N × Answer Reply
    unfolding forced_timeout attempts
    mailbox_datagram_with_retry force config request text t =
        if force
        then forced_timeout config 0 config.retries t
        else attempts config request text 0 config.retries t

    -- With the next index, as `send_next`.
    unfoldable pub retry_next :
        Bool
        → MailboxRetryConfig
        → ℕ
        → ℕ
        → ℕ
        → List ℕ
        → String
        → RawTransport N
        → RawTransport N × Answer Reply
    unfolding mailbox_datagram_with_retry
    retry_next force config command adp ado payload text t =
        mailbox_datagram_with_retry force config
          (record {
            command = command;
            datagram_index = t.datagram_index;
            adp = adp;
            ado = ado;
            payload = payload;
          })
          text (record t { datagram_index = next8 t.datagram_index })
