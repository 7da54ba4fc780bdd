-- ===== src/Raw/Errors.antt =====
-- How src/transport/linux_raw_socket_transport.cpp reads the texts of errors: the classes they are
-- counted in, those that are tried again, and those that a mailbox reader passes over.
use text.Mathlib.Text.{find?}
use openethercat.Base.{
  ℕ, ◌*◌, ◌^◌, min, Bool, true, false, ◌||◌, none, some, String, if◌then◌else◌, ltb, is_empty,
}
use openethercat.Raw.{
  MailboxDiagnostics, MailboxErrorClass, no_class, timeout_class, busy_class, parse_class,
  stale_class, abort_class, io_class, unknown_class,
}
use openethercat.Topology.Manager.{next64}

-- `text.find(part) != npos`.
unfoldable contains : String → String → Bool
contains text part = elim (find? text part) [ none ↦ false | some i ↦ true ]

unfoldable pub classify_mailbox_error : String → MailboxErrorClass
unfolding contains
classify_mailbox_error text =
    if is_empty text
    then no_class
    else if contains text "SDO abort"
    then abort_class
    else if contains text "timeout"
        || contains text "Timed out"
        || contains text "response frame not found"
    then timeout_class
    else if contains text "busy" || contains text "status read failed in strict mode"
    then busy_class
    else if contains text "toggle mismatch"
        || contains text "address mismatch"
        || contains text "Unexpected CoE service"
        || contains text "Unexpected SDO command"
        || contains text "parse"
    then parse_class
    else if contains text "stale" || contains text "counter mismatch"
    then stale_class
    else if contains text "socket"
        || contains text "sendto"
        || contains text "recv"
        || contains text "select()"
        || contains text "transport not open"
        || contains text "not open"
    then io_class
    else unknown_class

unfoldable pub is_ignorable_sdo_parse_error : String → Bool
unfolding contains
is_ignorable_sdo_parse_error error =
    contains error "Unexpected CoE service"
    || contains error "Unexpected SDO command"
    || contains error "address mismatch"
    || contains error "toggle mismatch"

unfoldable pub is_transient : String → Bool
unfolding contains
is_transient error =
    contains error "timeout"
    || contains error "response frame not found"
    || contains error "select() failed"
    || contains error "recv() failed"

unfoldable pub increment_class : MailboxErrorClass → MailboxDiagnostics → MailboxDiagnostics
increment_class timeout_class d = record d { error_timeout = next64 d.error_timeout }
increment_class busy_class d = record d { error_busy = next64 d.error_busy }
increment_class parse_class d = record d { error_parse_reject = next64 d.error_parse_reject }
increment_class stale_class d = record d { error_stale_counter = next64 d.error_stale_counter }
increment_class abort_class d = record d { error_abort = next64 d.error_abort }
increment_class io_class d = record d { error_transport_io = next64 d.error_transport_io }
increment_class unknown_class d = record d { error_unknown = next64 d.error_unknown }
increment_class no_class d = d

-- The milliseconds to wait before the next attempt.
unfoldable pub backoff_ms : ℕ → ℕ → ℕ → ℕ
backoff_ms attempt base max =
    let delay = min max (base * 2 ^ min attempt 10) in if ltb delay 1 then 1 else delay

-- The first class that is set is kept.
unfoldable pub first_class : MailboxErrorClass → MailboxErrorClass → MailboxErrorClass
first_class no_class later = later
first_class first later = first
