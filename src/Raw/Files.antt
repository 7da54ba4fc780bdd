-- ===== src/Raw/Files.antt =====
-- File access and Ethernet over the mailbox: src/transport/linux_raw_socket_transport_foe_eoe.cpp. The loop of a
-- file read ends with a short packet or an error, whenever that comes, and the loop of a file write does
-- not move on if no bytes are allowed in a packet: both run on fuel, and give nothing if that is used up.
use Prim.Native.Char.{code}
use text.Mathlib.Text.{◌==◌ as str_eq}
use openethercat.Base.{
  ℕ, zero, suc, ◌+◌, ◌%◌, min, Bool, true, false, ◌||◌, not, List, [], ◌∷◌, ◌++◌, Option, none,
  some, String, ◌<>◌, if◌then◌else◌, ltb, leb, ◌==◌, length, take, drop,
}
use openethercat.Base.Bytes.{read_le16, read_le32, put_le16, put_le32}
use openethercat.Base.Text.{to_string}
use openethercat.Mailbox.{EscMailboxFrame}
use openethercat.Raw.{RawTransport, System, MailboxDiagnostics, Outcome, done, failed}
use openethercat.Raw.Datagram.{to_auto_increment_address}
use openethercat.Raw.Frames.{Windows, Expected, mailbox_write_frame, mailbox_read_frame_expected}
use openethercat.Raw.Retry.{sleep_ms}
use openethercat.Topology.Manager.{next64}
use openethercat.Transport.{FoeRequest, FoeResponse}

abbrev pub mailbox_type_eoe : ℕ
mailbox_type_eoe = 0x02

abbrev pub mailbox_type_foe : ℕ
mailbox_type_foe = 0x04

-- The file name's characters are its bytes.
abbrev chars : String → List ℕ
chars String.[] = []
chars (String.◌∷◌ c s) = code c ∷ chars s

unfoldable pub foe_request : ℕ → FoeRequest → List ℕ
unfolding put_le16 put_le32
foe_request op request =
    put_le16 op ++ (put_le32 request.password ++ (chars request.file_name ++ (0 ∷ [])))

unfoldable pub foe_packet : ℕ → ℕ → List ℕ → List ℕ
unfolding put_le16 put_le32
foe_packet op packet bytes = put_le16 op ++ (put_le32 packet ++ bytes)

abbrev pub foe_frame : ℕ → Bool → Expected
foe_frame counter drain = record {
  counter = counter;
  type = mailbox_type_foe;
  enforce_counter = true;
  drain_emergencies = drain;
  timeout_error = "Timed out waiting for FoE mailbox response";
}

-- The text of an error of `mailboxWriteFrame`, in the words of the caller.
abbrev pub renamed : String → String → String
renamed words why = if str_eq why "Mailbox payload exceeds write window" then words else why

abbrev pub too_large : String → String
too_large = renamed "FoE request exceeds mailbox write window"

module _ {N : Type 0} where
  abbrev pub with_diagnostics :
      (MailboxDiagnostics → MailboxDiagnostics) → RawTransport N → RawTransport N
  with_diagnostics f t = record t { diagnostics = f t.diagnostics }

  unfoldable pub fail_read :
      List ℕ → String → RawTransport N → RawTransport N × (Bool × (FoeResponse × String))
  fail_read bytes why t = (
    with_diagnostics (λ d. record d { foe_read_failed = next64 d.foe_read_failed }) t,
    (false, (record { success = false; bytes = bytes; error = why }, why)),
  )

  unfoldable pub fail_write : String → RawTransport N → RawTransport N × (Bool × String)
  fail_write why t = (
    with_diagnostics (λ d. record d { foe_write_failed = next64 d.foe_write_failed }) t,
    (false, why),
  )

module _ {N : Type 0} (sys : System N) (over : ℕ → ℕ) (position : ℕ) (w : Windows) where
  unfoldable pub send : List ℕ → RawTransport N → RawTransport N × (ℕ × Option String)
  unfolding mailbox_write_frame to_auto_increment_address
  send payload t =
      mailbox_write_frame sys over (to_auto_increment_address position) w mailbox_type_foe payload t

  unfoldable pub wait : Expected → RawTransport N → RawTransport N × Outcome EscMailboxFrame
  unfolding mailbox_read_frame_expected to_auto_increment_address
  wait e t =
      mailbox_read_frame_expected sys over (to_auto_increment_address position) position w e t

  -- One packet of data: acknowledged, and the read ended if it is short. `rest` is the next round.
  unfoldable pub take_packet :
      (ℕ → ℕ → List ℕ → RawTransport N → Option (RawTransport N × (Bool × (FoeResponse × String))))
      → ℕ
      → ℕ
      → List ℕ
      → String
      → List ℕ
      → RawTransport N
      → Option (RawTransport N × (Bool × (FoeResponse × String)))
  unfolding send fail_read foe_packet read_le32
  take_packet rest max_data packet bytes text payload t =
      let chunk = drop 6 payload in
      let (sent, (counter, refusal)) = send (foe_packet 4 packet []) t in
      if not (read_le32 over payload 2 == packet)
      then some (fail_read bytes "FoE packet sequence mismatch" t)
      else elim refusal [
        | some why ↦ some (fail_read (bytes ++ chunk) (too_large why) sent)
        | none ↦
            if ltb (length chunk) max_data
            then some (
              sent,
              (true, (record { success = true; bytes = bytes ++ chunk; error = "" }, text)),
            )
            else rest counter ((packet + 1) % 4294967296) (bytes ++ chunk) sent
      ]

  unfoldable pub read_packets :
      ℕ
      → ℕ
      → String
      → ℕ
      → ℕ
      → List ℕ
      → RawTransport N
      → Option (RawTransport N × (Bool × (FoeResponse × String)))
  unfolding wait fail_read read_le16 read_le32 to_string sleep_ms take_packet
  read_packets zero max_data text counter packet bytes t = none
  read_packets (suc fuel) max_data text counter packet bytes t =
      let (got, outcome) = wait (foe_frame counter true) t in
      let rest = read_packets fuel max_data text in
      elim outcome [
        | failed why ↦ some (fail_read bytes why got)
        | done frame ↦
            let op = read_le16 over frame.payload 0 in
            let long = leb 6 (length frame.payload) in
            if ltb (length frame.payload) 2
            then some (fail_read bytes "FoE response payload too short" got)
            else if op == 5
            then some (
                fail_read bytes
                  ("FoE error response code=0x"
                    <> to_string (if long then read_le32 over frame.payload 2 else 0))
                  got)
            else if op == 6
            then rest counter packet bytes (sleep_ms sys 1 got)
            else if not (op == 3) || not long
            then some (fail_read bytes "Unexpected FoE response opcode" got)
            else take_packet rest max_data packet bytes text frame.payload got
      ]

  -- The packets of a write, from the one with number `packet` on.
  unfoldable pub write_packets :
      ℕ → ℕ → String → ℕ → List ℕ → RawTransport N → Option (RawTransport N × (Bool × String))
  unfolding send wait fail_write foe_packet read_le16 read_le32
  write_packets zero max_data text packet bytes t = none
  write_packets (suc fuel) max_data text packet bytes t =
      let chunk = take (min max_data (length bytes)) bytes in
      let (sent, (counter, refusal)) = send (foe_packet 3 packet chunk) t in
      let (got, outcome) = wait (foe_frame counter false) sent in
      let left = drop (length chunk) bytes in
      let rest = write_packets fuel max_data text ((packet + 1) % 4294967296) left got in
      elim refusal [
        | some why ↦ some (fail_write (too_large why) sent)
        | none ↦ elim outcome [
          | failed why ↦ some (fail_write why got)
          | done frame ↦
              let op = read_le16 over frame.payload 0 in
              if ltb (length frame.payload) 2
              then some (fail_write "FoE ACK payload too short" got)
              else if op == 5
              then some (fail_write "FoE data packet rejected" got)
              else if not (op == 4) || ltb (length frame.payload) 6
              then some (fail_write "Expected FoE ACK for data packet" got)
              else if not (read_le32 over frame.payload 2 == packet)
              then some (fail_write "FoE ACK packet mismatch" got)
              else if ltb (length chunk) max_data || leb (length left) 0
              then some (got, (true, text))
              else rest
        ]
      ]

  -- The answer to the write request, and the packets after it.
  unfoldable pub write_accepted :
      ℕ
      → ℕ
      → List ℕ
      → String
      → RawTransport N × Outcome EscMailboxFrame
      → Option (RawTransport N × (Bool × String))
  unfolding fail_write read_le16 write_packets
  write_accepted fuel max_data bytes text (t, outcome) = elim outcome [
    | failed why ↦ some (fail_write why t)
    | done frame ↦
        let op = read_le16 over frame.payload 0 in
        if ltb (length frame.payload) 2
        then some (fail_write "FoE response payload too short" t)
        else if op == 5
        then some (fail_write "FoE write request rejected" t)
        else if not (op == 4)
        then some (fail_write "Expected FoE ACK after WRQ" t)
        else write_packets fuel max_data text 1 bytes t
  ]
