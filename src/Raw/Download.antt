-- ===== src/Raw/Download.antt =====
-- sdoDownload and configurePdo of src/transport/linux_raw_socket_transport.cpp.
use openethercat.Base.{
  ℕ, zero, suc, ◌+◌, ◌-◌, ◌*◌, ◌%◌, min, Bool, true, false, ◌&&◌, List, [], ◌∷◌, Option, none, some,
  String, ◌<>◌, if◌then◌else◌, ltb, leb, length, take, drop,
}
use openethercat.Base.Bytes.{put_le16, put_le32}
use openethercat.Base.Text.{to_string}
use openethercat.Mailbox.{EscMailboxFrame}
use openethercat.Raw.{RawTransport, System, no_class, io_class}
use openethercat.Raw.Mailbox.{Route}
use openethercat.Raw.Transaction.{
  Captured, Settled, settled, stopped, capture, settle, start_transaction, fail_call,
  force_timeout_test, configured_route, resolve_route, ask,
}
use openethercat.Sdo.{
  SdoAddress, AckResponse, build_initiate_download_request, parse_initiate_download_response,
  build_download_segment_request, parse_download_segment_response,
}
use openethercat.Transport.{SdoCall, PdoMappingEntry}

abbrev pub segment_payload_max : ℕ
segment_payload_max = 7

abbrev pub same_ack : AckResponse → AckResponse
same_ack ack = ack

unfoldable pub accept_initiate_download :
    (ℕ → ℕ) → SdoAddress → EscMailboxFrame → Option (Captured AckResponse)
unfolding capture parse_initiate_download_response
accept_initiate_download over address frame =
    let ack = parse_initiate_download_response over frame.payload address in capture ack ack

unfoldable pub accept_download_segment :
    (ℕ → ℕ) → ℕ → EscMailboxFrame → Option (Captured AckResponse)
unfolding capture parse_download_segment_response
accept_download_segment over toggle frame =
    let ack = parse_download_segment_response over frame.payload toggle in capture ack ack

abbrev pub downloaded : List ℕ → String → SdoCall
downloaded bytes text = record { ok = true; bytes = bytes; abort_code = 0; error = text }

module _ {N : Type 0} (sys : System N) (over : ℕ → ℕ) where
  unfoldable pub send_segment :
      Route → ℕ → List ℕ → String → RawTransport N → RawTransport N × Settled AckResponse
  unfolding ask settle build_download_segment_request accept_download_segment
  send_segment r toggle rest text t =
      let (after, a) =
        ask sys over r
          (build_download_segment_request toggle (leb (length rest) segment_payload_max)
            (take (min (length rest) segment_payload_max) rest) segment_payload_max)
          (accept_download_segment over toggle) text t in
      (after, settle same_ack a)

  -- The data still to send, in segments of up to seven bytes.
  unfoldable pub download_segments :
      Route → ℕ → ℕ → List ℕ → String → RawTransport N → RawTransport N × SdoCall
  unfolding send_segment fail_call
  download_segments r zero toggle rest text t =
      (record t { last_error_class = no_class }, downloaded [] text)
  download_segments r (suc fuel) toggle rest text t =
      let (after, answer) = send_segment r toggle rest text t in
      let go_on =
        download_segments r fuel (1 - toggle) (drop (min (length rest) segment_payload_max) rest) in
      if leb (length rest) 0
      then (record t { last_error_class = no_class }, downloaded [] text)
      else elim answer [
        | stopped known why code ↦ fail_call [] known why code after
        | settled ack left ↦ go_on left after
      ]

  -- Each segment takes a byte or more, so that there are no more rounds than bytes.
  unfoldable pub download_answered :
      Route → List ℕ → RawTransport N × Settled AckResponse → RawTransport N × SdoCall
  unfolding download_segments fail_call
  download_answered r bytes (t, answer) = elim answer [
    | stopped known why code ↦ fail_call [] known why code t
    | settled ack text ↦ download_segments r (length bytes) 0 bytes text t
  ]

  unfoldable pub ask_download :
      Route → SdoAddress → List ℕ → String → RawTransport N → RawTransport N × Settled AckResponse
  unfolding ask settle build_initiate_download_request accept_initiate_download
  ask_download r address bytes text t =
      let (after, a) =
        ask sys over r (build_initiate_download_request address (length bytes % 4294967296))
          (accept_initiate_download over address) text t in
      (after, settle same_ack a)

  unfoldable pub sdo_download_raw :
      ℕ → SdoAddress → List ℕ → RawTransport N → RawTransport N × SdoCall
  unfolding start_transaction configured_route resolve_route ask_download download_answered
      fail_call
  sdo_download_raw position address bytes t =
      let started = start_transaction t in
      let (resolved, (r, text)) =
        resolve_route sys over (configured_route sys over position started) "" started in
      elim (t.socket_fd) [
        | none ↦
            if force_timeout_test sys over
            then download_answered r bytes (ask_download r address bytes text resolved)
            else fail_call [] io_class "transport not open" 0 started
        | some fd ↦ download_answered r bytes (ask_download r address bytes text resolved)
      ]

  -- `writeSdoU8`, `writeSdoU16` and `writeSdoU32`, which differ in the bytes: the text of an error, if
  -- the write fails.
  unfoldable pub write_sdo : ℕ → ℕ → ℕ → List ℕ → RawTransport N → RawTransport N × Option String
  unfolding sdo_download_raw to_string
  write_sdo position index sub_index bytes t =
      let (after, call) =
        sdo_download_raw position (record { index = index; sub_index = sub_index }) bytes t in
      (
        after,
        if call.ok
            then none
            else some (
                "SDO write 0x"
                <> (to_string index
                    <> (":" <> (to_string sub_index <> (" failed: " <> call.error))))),
      )

  -- Writes one after the other, up to the first that fails.
  unfoldable pub write_sdos :
      ℕ → List (SdoAddress × List ℕ) → RawTransport N → RawTransport N × Option String
  unfolding write_sdo
  write_sdos position [] t = (t, none)
  write_sdos position ((address, bytes) ∷ writes) t =
      let (after, failure) = write_sdo position address.index address.sub_index bytes t in
      let rest = write_sdos position writes after in
      elim failure [ some why ↦ (after, some why) | none ↦ rest ]

-- The mapping entry as the source packs it: the index lowest.
unfoldable map_entry : PdoMappingEntry → ℕ
map_entry e = e.index + e.sub_index * 65536 + e.bit_length * 16777216

abbrev at : ℕ → ℕ → SdoAddress
at index sub_index = record { index = index; sub_index = sub_index }

-- The entries of the mapping, at sub indices counted in a byte.
unfoldable entry_writes :
    ℕ → ℕ → List PdoMappingEntry → List (SdoAddress × List ℕ) → List (SdoAddress × List ℕ)
unfolding map_entry put_le32
entry_writes index sub [] after = after
entry_writes index sub (e ∷ entries) after =
    (at index sub, put_le32 (map_entry e)) ∷ entry_writes index ((sub + 1) % 256) entries after

-- All that is written: the mapping is disabled, filled and enabled, then assigned to its sync manager.
unfoldable pub pdo_writes : ℕ → List PdoMappingEntry → List (SdoAddress × List ℕ)
unfolding entry_writes put_le16
pdo_writes assign_index entries =
    let sm_assign = if leb 0x1600 assign_index && ltb assign_index 0x1800 then 0x1c12 else 0x1c13 in
    (at assign_index 0, 0 ∷ [])
    ∷ entry_writes assign_index 1 entries (
        (at assign_index 0, length entries % 256 ∷ [])
        ∷ (at sm_assign 0, 0 ∷ [])
        ∷ (at sm_assign 1, put_le16 assign_index)
        ∷ (at sm_assign 0, 1 ∷ [])
        ∷ [])

unfoldable pub configure_pdo_raw :
    {N : Type 0}
    → System N
    → (ℕ → ℕ)
    → ℕ
    → ℕ
    → List PdoMappingEntry
    → RawTransport N
    → RawTransport N × (Bool × String)
unfolding write_sdos pdo_writes
configure_pdo_raw sys over position assign_index entries t =
    let (after, failure) = write_sdos sys over position (pdo_writes assign_index entries) t in
    (after, elim failure [ none ↦ (true, "") | some why ↦ (false, why) ])
