-- ===== src/Raw/Acknowledged.antt =====
-- A segment of sdoDownload of src/transport/linux_raw_socket_transport.cpp that a slave has acknowledged.
use openethercat.Base.{
  ℕ, ◌-◌, ◌/◌, ◌%◌, Option, none, ◌≤◌, ◌≡◌, ap, ◌∙◌, Bool, true, List, [], ◌++◌, some, String, leb,
  length, arith,
}
use openethercat.Raw.{RawTransport, System, MailboxErrorClass, no_class}
use openethercat.Raw.Download.{same_ack, accept_download_segment}
use openethercat.Mailbox.{EscMailboxFrame, mailbox_type_coe, parse_emergency}
use openethercat.Raw.Mailbox.{Route, mailbox_write_coe_payload}
use openethercat.Base.Bytes.{byte_at, read_le16}
use openethercat.Raw.Transaction.{Captured, taken, fatal, capture, settled, settle, ask}
use openethercat.Raw.Answers.{mailbox_read_matching_coe-source}
use openethercat.Raw.Reading.{mailbox_read_matching_coe}
use openethercat.Raw.Replies.{option_cases}
use openethercat.Raw.Retry.{Answer}
use openethercat.Sdo.{AckResponse, build_download_segment_request, parse_download_segment_response}
use openethercat.Sdo.Download.{parse_download_segment_response-success_iff}

module _ {N : Type 0} (sys : System N) (over : ℕ → ℕ) (r : Route) where
  -- A frame that acknowledges a segment: CoE, with the counter of the request, no emergency, and an SDO
  -- response of at least three bytes whose command is that of a segment and has the toggle bit sent.
  abbrev pub IsAcknowledgement : ℕ → ℕ → EscMailboxFrame → Type 0
  IsAcknowledgement toggle counter frame =
      (frame.type ≡ mailbox_type_coe)
      × (frame.counter % 8 ≡ counter % 8)
      × (parse_emergency over frame.payload r.slave_position ≡ none)
      × (3 ≤ length frame.payload)
      × (read_le16 over frame.payload 0 ≡ 3)
      × (byte_at over frame.payload 2 / 32 % 8 ≡ 1)
      × (byte_at over frame.payload 2 / 16 % 2 ≡ toggle % 2)

  -- One segment: a request with the chunk is written, and what the reader returns for its counter is
  -- what it takes from a frame that acknowledges the segment.
  pub record Exchanged (toggle : ℕ) (is_last : Bool) (chunk : List ℕ) (text : String)
      (t : RawTransport N) (v : RawTransport N) (mid : String) : Type 0 where
    counter : ℕ
    frame : EscMailboxFrame
    captured : Captured AckResponse
    written :
        (mailbox_write_coe_payload sys over r
          (build_download_segment_request toggle is_last chunk 7)
          text
          t).1.value
        ≡ some counter
    read :
        let w =
          mailbox_write_coe_payload sys over r
            (build_download_segment_request toggle is_last chunk 7)
            text
            t in
        let a =
          mailbox_read_matching_coe sys over
            (accept_download_segment over toggle)
            r
            counter
            no_class
            w.1.text
            w.0 in
        (a.1.value ≡ some captured) × (a.1.text ≡ mid) × (a.0 ≡ v)
    accepted : accept_download_segment over toggle frame ≡ some captured
    acknowledged : IsAcknowledgement toggle counter frame

  -- Bytes that a slave has acknowledged in segments of one to seven bytes with alternating toggles, of
  -- which the last one only, and no other, is marked so.
  pub data Acknowledged
      : ℕ → List ℕ → String → RawTransport N → String → RawTransport N → Type 0 where
    complete :
        (toggle : ℕ) (text : String) (t : RawTransport N) → Acknowledged toggle [] text t text t
    segment :
        (toggle : ℕ) (bytes chunk rest : List ℕ) (text : String) (t v u : RawTransport N)
        (mid left : String)
        → bytes ≡ chunk ++ rest
        → 1 ≤ length chunk
        → length chunk ≤ 7
        → Exchanged toggle (leb (length rest) 0) chunk text t v mid
        → Acknowledged (1 - toggle) rest mid v left u
        → Acknowledged toggle bytes text t left u

  -- An answer is settled only by a response that reports success.
  pub settled-success :
      (o : Option (Captured AckResponse)) (cls : MailboxErrorClass) (text : String)
      (ack : AckResponse) (left : String)
      → settle same_ack (record { value = o; error_class = cls; text = text }) ≡ settled ack left
      → (o ≡ some (taken ack)) × (text ≡ left) × (ack.success ≡ true)
  unfolding settle
  settled-success none cls text ack left e = cc
  settled-success (some (fatal why)) cls text ack left e = cc
  settled-success (some (taken p)) cls text ack left e = ground arith

  -- What is captured from a frame is its response.
  accepted-response :
      (toggle : ℕ) (frame : EscMailboxFrame) (ack : AckResponse)
      → accept_download_segment over toggle frame ≡ some (taken ack)
      → parse_download_segment_response over frame.payload toggle ≡ ack
  unfolding accept_download_segment capture
  accepted-response toggle frame ack e = ground arith

  -- A segment whose answer is settled was acknowledged.
  pub send_chunk-Exchanged :
      (toggle : ℕ) (is_last : Bool) (chunk : List ℕ) (text left : String) (t v : RawTransport N)
      (ack : AckResponse)
      → let s =
          ask sys over r
            (build_download_segment_request toggle is_last chunk 7)
            (accept_download_segment over toggle)
            text
            t in
        s.0 ≡ v
        → settle same_ack s.1 ≡ settled ack left
        → Exchanged toggle is_last chunk text t v left
  unfolding ask
  send_chunk-Exchanged toggle is_last chunk text left t v ack =
      let w =
        mailbox_write_coe_payload sys over r (build_download_segment_request toggle is_last chunk 7)
          text t in
      let P : RawTransport N × Answer (Captured AckResponse) → Type 0 = λ s.
        s.0 ≡ v
        → settle same_ack s.1 ≡ settled ack left
        → Exchanged toggle is_last chunk text t v left in
      option_cases P w.1.value
        (λ _ same ended.
          let (never, _, _) = settled-success none w.1.error_class w.1.text ack left ended in
          absurd (cc never))
        (λ counter sent same ended.
          let accept = accept_download_segment over toggle in
          let a = mailbox_read_matching_coe sys over accept r counter no_class w.1.text w.0 in
          let (value, end, success) =
            settled-success a.1.value a.1.error_class a.1.text ack left ended in
          let (frame, taken_from, typed, counted, calm) =
            mailbox_read_matching_coe-source sys over accept r counter no_class w.1.text w.0
              (taken ack) value in
          let succeeded : (parse_download_segment_response over frame.payload toggle).success
              ≡ true =
            ap (λ (x : AckResponse). x.success) (accepted-response toggle frame ack taken_from)
            ∙ success in
          let (long, sdo, command, toggled) =
            (parse_download_segment_response-success_iff over frame.payload toggle).0.0 succeeded in
          record {
            counter = counter;
            frame = frame;
            captured = taken ack;
            written = sent;
            read = (value, end, same);
            accepted = taken_from;
            acknowledged = (typed, counted, calm, long, sdo, command, toggled);
          })
