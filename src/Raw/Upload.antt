-- ===== src/Raw/Upload.antt =====
-- sdoUpload of src/transport/linux_raw_socket_transport.cpp. The loop over segments ends with the slave's
-- last segment or an error, whenever that comes: it runs on fuel, and gives nothing if that is used up.
use text.Mathlib.Text.{◌==◌ as str_eq}
use openethercat.Base.{
  ℕ, zero, suc, ◌-◌, true, ◌&&◌, not, List, [], ◌++◌, Option, none, some, String, if◌then◌else◌,
  ◌==◌,
}
use openethercat.Mailbox.{EscMailboxFrame}
use openethercat.Raw.{RawTransport, System, no_class, io_class}
use openethercat.Raw.Errors.{is_ignorable_sdo_parse_error}
use openethercat.Raw.Mailbox.{Route}
use openethercat.Raw.Transaction.{
  Captured, taken, fatal, Settled, settled, stopped, capture, settle, start_transaction, fail_call,
  force_timeout_test, configured_route, resolve_route, ask,
}
use openethercat.Sdo.{
  SdoAddress, InitiateUploadResponse, SegmentUploadResponse, AckResponse,
  build_initiate_upload_request, parse_initiate_upload_response, build_upload_segment_request,
  parse_upload_segment_response,
}
use openethercat.Transport.{SdoCall}

abbrev initiate_view : InitiateUploadResponse → AckResponse
initiate_view p = record {
  success = p.success;
  toggle = 0;
  abort_code = p.abort_code;
  error = p.error;
}

abbrev segment_view : SegmentUploadResponse → AckResponse
segment_view p = record {
  success = p.success;
  toggle = p.toggle;
  abort_code = p.abort_code;
  error = p.error;
}

unfoldable pub accept_initiate_upload :
    (ℕ → ℕ) → SdoAddress → EscMailboxFrame → Option (Captured InitiateUploadResponse)
unfolding capture parse_initiate_upload_response
accept_initiate_upload over address frame =
    let parsed = parse_initiate_upload_response over frame.payload address in
    capture (initiate_view parsed) parsed

-- A segment with the other toggle is a repetition, and is passed over.
unfoldable pub accept_upload_segment :
    (ℕ → ℕ) → ℕ → EscMailboxFrame → Option (Captured SegmentUploadResponse)
unfolding is_ignorable_sdo_parse_error parse_upload_segment_response
accept_upload_segment over toggle frame =
    let parsed = parse_upload_segment_response over frame.payload in
    if parsed.success && parsed.toggle == toggle
    then some (taken parsed)
    else if str_eq parsed.error "SDO abort"
    then some (taken parsed)
    else if not parsed.success && not (is_ignorable_sdo_parse_error parsed.error)
    then some (fatal parsed.error)
    else none

abbrev pub uploaded : List ℕ → String → SdoCall
uploaded bytes text = record { ok = true; bytes = bytes; abort_code = 0; error = text }

module _ {N : Type 0} (sys : System N) (over : ℕ → ℕ) where
  unfoldable pub ask_segment :
      Route → ℕ → String → RawTransport N → RawTransport N × Settled SegmentUploadResponse
  unfolding ask settle build_upload_segment_request accept_upload_segment
  ask_segment r toggle text t =
      let (after, a) =
        ask sys over r (build_upload_segment_request toggle) (accept_upload_segment over toggle)
          text t in
      (after, settle segment_view a)

  -- What is done with the answer to a segment request; `rest` is the loop's next round.
  unfoldable pub next_segment :
      (List ℕ → String → RawTransport N → Option (RawTransport N × SdoCall))
      → List ℕ
      → RawTransport N × Settled SegmentUploadResponse
      → Option (RawTransport N × SdoCall)
  unfolding fail_call
  next_segment rest bytes (after, answer) = elim answer [
    | stopped known why code ↦ some (fail_call bytes known why code after)
    | settled seg left ↦
        if seg.last_segment
        then some (record after { last_error_class = no_class }, uploaded (bytes ++ seg.bytes) left)
        else rest (bytes ++ seg.bytes) left after
  ]

  unfoldable pub upload_segments :
      Route → ℕ → ℕ → List ℕ → String → RawTransport N → Option (RawTransport N × SdoCall)
  unfolding ask_segment next_segment
  upload_segments r zero toggle bytes text t = none
  upload_segments r (suc fuel) toggle bytes text t =
      next_segment (upload_segments r fuel (1 - toggle)) bytes (ask_segment r toggle text t)

  -- The first answer: the whole value, or the start of segments.
  unfoldable pub upload_answered :
      Route
      → ℕ
      → RawTransport N × Settled InitiateUploadResponse
      → Option (RawTransport N × SdoCall)
  unfolding upload_segments fail_call
  upload_answered r fuel (t, answer) = elim answer [
    | stopped known why code ↦ some (fail_call [] known why code t)
    | settled p text ↦
        if p.expedited then some (t, uploaded p.bytes text) else upload_segments r fuel 0 [] text t
  ]

  unfoldable pub ask_upload :
      Route → SdoAddress → String → RawTransport N → RawTransport N × Settled InitiateUploadResponse
  unfolding ask settle build_initiate_upload_request accept_initiate_upload
  ask_upload r address text t =
      let (after, a) =
        ask sys over r (build_initiate_upload_request address) (accept_initiate_upload over address)
          text t in
      (after, settle initiate_view a)

  unfoldable pub sdo_upload_raw :
      ℕ → ℕ → SdoAddress → RawTransport N → Option (RawTransport N × SdoCall)
  unfolding start_transaction configured_route resolve_route ask_upload upload_answered fail_call
  sdo_upload_raw fuel position address t =
      let started = start_transaction t in
      let (resolved, (r, text)) =
        resolve_route sys over (configured_route sys over position started) "" started in
      elim (t.socket_fd) [
        | none ↦
            if force_timeout_test sys over
            then upload_answered r fuel (ask_upload r address text resolved)
            else some (fail_call [] io_class "transport not open" 0 started)
        | some fd ↦ upload_answered r fuel (ask_upload r address text resolved)
      ]
