-- ===== src/Raw/SyncManagers.antt =====
-- The sync manager reads of src/transport/linux_raw_socket_transport_mailbox.cpp.
use openethercat.Base.{
  ℕ, ◌+◌, ◌*◌, ◌%◌, Bool, none, some, String, if◌then◌else◌, ltb, leb, length, replicate,
}
use openethercat.Base.Bytes.{byte_at, read_le16}
use openethercat.Raw.{RawTransport, System, parse_class}
use openethercat.Raw.Datagram.{command_aprd}
use openethercat.Raw.Retry.{Answer, MailboxRetryConfig, retry_next}

pub record SmWindow : Type 0 where
  pub start : ℕ
  pub size : ℕ

abbrev pub register_sm_base : ℕ
register_sm_base = 0x0800

abbrev pub register_sm_status_offset : ℕ
register_sm_status_offset = 0x0005

module _ {N : Type 0} (sys : System N) (over : ℕ → ℕ) where
  -- The start and the length of a sync manager.
  unfoldable pub read_sm_window_with_retry :
      Bool → MailboxRetryConfig → ℕ → ℕ → String → RawTransport N → RawTransport N × Answer SmWindow
  unfolding retry_next read_le16
  read_sm_window_with_retry force config adp sm_index text t =
      let (sent, a) =
        retry_next sys over force config command_aprd adp
          ((register_sm_base + sm_index * 8) % 65536) (replicate 8 0) text t in
      (
        sent,
        elim (a.value) [
          | none ↦ record { value = none; error_class = a.error_class; text = a.text }
          | some reply ↦
              if ltb (length reply.payload) 4
              then record {
                value = none;
                error_class = parse_class;
                text = "SM payload too short for mailbox";
              }
              else record {
                value = some (record {
                  start = read_le16 over reply.payload 0;
                  size = read_le16 over reply.payload 2;
                });
                error_class = a.error_class;
                text = a.text;
              }
        ],
      )

  unfoldable pub read_sm_status_with_retry :
      Bool → MailboxRetryConfig → ℕ → ℕ → String → RawTransport N → RawTransport N × Answer ℕ
  unfolding retry_next
  read_sm_status_with_retry force config adp sm_index text t =
      let (sent, a) =
        retry_next sys over force config command_aprd adp
          ((register_sm_base + sm_index * 8 + register_sm_status_offset) % 65536) (replicate 1 0)
          text t in
      (
        sent,
        elim (a.value) [
          | none ↦ record { value = none; error_class = a.error_class; text = a.text }
          | some reply ↦
              if leb (length reply.payload) 0
              then record {
                value = none;
                error_class = parse_class;
                text = "SM status payload too short";
              }
              else record {
                value = some (byte_at over reply.payload 0);
                error_class = a.error_class;
                text = a.text;
              }
        ],
      )
