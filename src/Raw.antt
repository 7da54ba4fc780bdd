-- ===== src/Raw.antt =====
-- include/openethercat/transport/linux_raw_socket_transport.hpp: the state of the raw socket transport
-- and its setters. The operating system is a parameter, `System`: a state `N` with the socket calls, the
-- steady clock in nanoseconds, the sleep and the environment. A descriptor of -1 is `none`.
pub mod Errors
pub mod Datagram
pub mod Socket
pub mod Exchange
pub mod Retry
pub mod SyncManagers
pub mod Mailbox
pub mod Reading
pub mod Transaction
pub mod Upload
pub mod Download
pub mod Registers
pub mod Steps
pub mod Invariant
pub mod Deadline
pub mod Replies
pub mod Answers
pub mod Retries
pub mod Acknowledged
pub mod Segments
pub mod Frames
pub mod Files
pub mod Calls
pub mod Discovery
pub mod Signals
pub mod Mapping
pub mod Windows
pub mod Clocks
pub mod Carried
pub mod Matching
pub mod Cycles
pub mod Soundness
pub mod Queue
pub mod Sim
mod Runs
mod Transfers
use openethercat.Base.{
  ℕ, zero, suc, ◌-◌, Bool, true, false, List, [], ◌∷◌, Option, none, some, String, if◌then◌else◌,
  ltb, ◌==◌, length,
}
use openethercat.Clock.{ℤ, pos, negsuc}
use openethercat.Frame.{Mac}
use openethercat.Mailbox.{EmergencyMessage}
use openethercat.Topology.Manager.{next64}

-- What a call that may fail comes to: its value, or the text of the error.
pub data Outcome {ℓ} (A : Type ℓ) : Type ℓ where
  done : A → Outcome A
  failed : String → Outcome A

pub data Ready : Type 0 where
  readable timed_out : Ready
  unready : String → Ready

-- `select` takes the milliseconds to wait, `receive` (`recv`) the bytes of the buffer. `stoi` and
-- `stoul` give nothing where the source's call throws; `stoul` reads with base 0.
pub record System (N : Type 0) : Type 0 where
  pub now : N → ℕ
  pub sleep : ℕ → N → N
  pub socket : N → N × Outcome ℕ
  pub interface_index : ℕ → String → N → N × Outcome ℕ
  pub hardware_address : ℕ → String → N → N × Outcome Mac
  pub bind : ℕ → ℕ → N → N × Option String
  pub close_socket : ℕ → N → N
  pub send_to : Option ℕ → ℕ → Mac → List ℕ → N → N × Option String
  pub select : Option ℕ → ℕ → N → N × Ready
  pub receive : Option ℕ → ℕ → N → N × Outcome (List ℕ)
  pub getenv : String → Option String
  pub stoi : String → Option ℤ
  pub stoul : String → Option ℕ

pub record MailboxDiagnostics : Type 0 where
  pub transactions_started : ℕ
  pub transactions_failed : ℕ
  pub foe_read_started : ℕ
  pub foe_read_failed : ℕ
  pub foe_write_started : ℕ
  pub foe_write_failed : ℕ
  pub eoe_send_started : ℕ
  pub eoe_send_failed : ℕ
  pub eoe_receive_started : ℕ
  pub eoe_receive_failed : ℕ
  pub mailbox_writes : ℕ
  pub mailbox_reads : ℕ
  pub datagram_retries : ℕ
  pub mailbox_timeouts : ℕ
  pub stale_counter_drops : ℕ
  pub parse_rejects : ℕ
  pub emergency_queued : ℕ
  pub emergency_dropped : ℕ
  pub matched_responses : ℕ
  pub error_timeout : ℕ
  pub error_busy : ℕ
  pub error_parse_reject : ℕ
  pub error_stale_counter : ℕ
  pub error_abort : ℕ
  pub error_transport_io : ℕ
  pub error_unknown : ℕ

pub data MailboxStatusMode : Type 0 where
  strict hybrid poll : MailboxStatusMode

pub data MailboxErrorClass : Type 0 where
  no_class timeout_class busy_class parse_class stale_class abort_class io_class unknown_class :
      MailboxErrorClass

pub record DcDiagnostics : Type 0 where
  pub read_attempts : ℕ
  pub read_success : ℕ
  pub read_failure : ℕ
  pub read_invalid_payload : ℕ
  pub write_attempts : ℕ
  pub write_success : ℕ
  pub write_failure : ℕ

pub record ProcessDataWindow : Type 0 where
  pub slave_position : ℕ
  pub physical_start : ℕ
  pub window_length : ℕ
  pub logical_start : ℕ

pub record RawTransport (N : Type 0) : Type 0 where
  pub ifname : String
  pub secondary_ifname : String
  pub socket_fd : Option ℕ
  pub secondary_socket_fd : Option ℕ
  pub if_index : ℕ
  pub secondary_if_index : ℕ
  pub source_mac : Mac
  pub destination_mac : Mac
  pub datagram_index : ℕ
  pub logical_address : ℕ
  pub expected_working_counter : ℕ
  pub last_working_counter : ℕ
  pub last_output_working_counter : ℕ
  pub last_input_working_counter : ℕ
  pub max_frames_per_cycle : ℕ
  pub redundancy_enabled : Bool
  pub last_frame_used_secondary : Bool
  pub mailbox_write_offset : ℕ
  pub mailbox_write_size : ℕ
  pub mailbox_read_offset : ℕ
  pub mailbox_read_size : ℕ
  pub mailbox_counter : ℕ
  pub timeout_ms : ℕ
  pub error : String
  pub output_windows : List ProcessDataWindow
  pub emergencies : List EmergencyMessage
  pub diagnostics : MailboxDiagnostics
  pub status_mode : MailboxStatusMode
  pub emergency_queue_limit : ℕ
  pub last_error_class : MailboxErrorClass
  pub dc_diagnostics : DcDiagnostics
  pub system : N

abbrev pub no_diagnostics : MailboxDiagnostics
no_diagnostics = record {
  transactions_started = 0;
  transactions_failed = 0;
  foe_read_started = 0;
  foe_read_failed = 0;
  foe_write_started = 0;
  foe_write_failed = 0;
  eoe_send_started = 0;
  eoe_send_failed = 0;
  eoe_receive_started = 0;
  eoe_receive_failed = 0;
  mailbox_writes = 0;
  mailbox_reads = 0;
  datagram_retries = 0;
  mailbox_timeouts = 0;
  stale_counter_drops = 0;
  parse_rejects = 0;
  emergency_queued = 0;
  emergency_dropped = 0;
  matched_responses = 0;
  error_timeout = 0;
  error_busy = 0;
  error_parse_reject = 0;
  error_stale_counter = 0;
  error_abort = 0;
  error_transport_io = 0;
  error_unknown = 0;
}

abbrev pub no_dc_diagnostics : DcDiagnostics
no_dc_diagnostics = record {
  read_attempts = 0;
  read_success = 0;
  read_failure = 0;
  read_invalid_payload = 0;
  write_attempts = 0;
  write_success = 0;
  write_failure = 0;
}

-- The oldest entries are dropped until the queue is within the limit.
unfoldable pub trim :
    ℕ → ℕ → List EmergencyMessage → MailboxDiagnostics → List EmergencyMessage × MailboxDiagnostics
trim zero limit queue d = (queue, d)
trim (suc rounds) limit [] d = ([], d)
trim (suc rounds) limit (m ∷ queue) d =
    let rest =
      trim rounds limit queue (record d { emergency_dropped = next64 d.emergency_dropped }) in
    if ltb limit (length (m ∷ queue)) then rest else (m ∷ queue, d)

module _ {N : Type 0} where
  unfoldable set_cycle_timeout_ms : ℤ → RawTransport N → RawTransport N
  set_cycle_timeout_ms (pos zero) t = record t { timeout_ms = 1 }
  set_cycle_timeout_ms (pos (suc n)) t = record t { timeout_ms = suc n }
  set_cycle_timeout_ms (negsuc n) t = record t { timeout_ms = 1 }

  unfoldable set_max_frames_per_cycle : ℕ → RawTransport N → RawTransport N
  set_max_frames_per_cycle n t = record t { max_frames_per_cycle = if n == 0 then 1 else n }

  unfoldable set_mailbox_configuration : ℕ → ℕ → ℕ → ℕ → RawTransport N → RawTransport N
  set_mailbox_configuration write_offset write_size read_offset read_size t = record t {
    mailbox_write_offset = write_offset;
    mailbox_write_size = write_size;
    mailbox_read_offset = read_offset;
    mailbox_read_size = read_size;
  }

  unfoldable reset_mailbox_diagnostics : RawTransport N → RawTransport N
  reset_mailbox_diagnostics t = record t {
    diagnostics = no_diagnostics;
    last_error_class = no_class;
  }

  -- A queue of `length` entries takes no more rounds than that.
  unfoldable pub set_emergency_queue_limit : ℕ → RawTransport N → RawTransport N
  unfolding trim
  set_emergency_queue_limit limit t =
      let least = if ltb limit 1 then 1 else limit in
      let kept = trim (length t.emergencies) least t.emergencies t.diagnostics in
      record t { emergency_queue_limit = least; emergencies = kept.0; diagnostics = kept.1 }

  unfoldable poll_emergency_raw : RawTransport N → RawTransport N × Option EmergencyMessage
  poll_emergency_raw t = elim t.emergencies [
    | [] ↦ (t, none)
    | m ∷ queue ↦ (record t { emergencies = queue }, some m)
  ]
