-- ===== src/Services.antt =====
-- src/master/coe_mailbox.cpp and src/master/foe_eoe.cpp: the services over a transport. The text of
-- an abort code that the source has no name for is the code in hexadecimal.
pub mod Drain
mod Runs
use openethercat.Base.{
  ℕ, zero, suc, ◌/◌, ◌%◌, Bool, true, false, not, List, [], ◌∷◌, Option, none, some, String, ◌<>◌,
  if◌then◌else◌, ltb, ◌==◌, is_empty,
}
use openethercat.Base.Text.{to_hex}
use openethercat.Mailbox.{EmergencyMessage}
use openethercat.Sdo.{SdoAddress}
use openethercat.Transport.{Transport, SdoCall, PdoMappingEntry, FoeRequest, FoeResponse}

pub record SdoAbort : Type 0 where
  pub code : ℕ
  pub message : String

pub record SdoResponse : Type 0 where
  pub success : Bool
  pub bytes : List ℕ
  pub abort : Option SdoAbort

unfoldable pub describe_abort : ℕ → String
unfolding to_hex
describe_abort c =
    if c == 0x05030000
    then "Toggle bit not alternated"
    else if c == 0x05040001
    then "SDO protocol timed out"
    else if c == 0x06010000
    then "Unsupported access to object"
    else if c == 0x06010001
    then "Attempt to read a write-only object"
    else if c == 0x06010002
    then "Attempt to write a read-only object"
    else if c == 0x06020000
    then "Object does not exist"
    else if c == 0x06090011
    then "Sub-index does not exist"
    else if c == 0x06090030
    then "Value range exceeded"
    else if c == 0x08000000
    then "General error"
    else "SDO abort 0x" <> to_hex c

-- The out parameters before the call.
abbrev no_call : SdoCall
no_call = record { ok = false; bytes = []; abort_code = 0; error = "" }

abbrev no_response : FoeResponse
no_response = record { success = false; bytes = []; error = "" }

abbrev abort_of : String → SdoCall → Option SdoAbort
abort_of fallback call =
    if call.ok
    then none
    else if not (call.abort_code == 0)
    then some (record { code = call.abort_code; message = describe_abort call.abort_code })
    else some (record { code = 0; message = if is_empty call.error then fallback else call.error })

module _ {T : Type 0} (io : Transport T) where
  unfoldable pub upload : ℕ → SdoAddress → T → T × SdoResponse
  upload position address t =
      let (after, call) = io.sdo_upload position address no_call t in
      (
        after,
        record { success = call.ok; bytes = call.bytes; abort = abort_of "SDO upload failed" call },
      )

  unfoldable pub download : ℕ → SdoAddress → List ℕ → T → T × SdoResponse
  download position address bytes t =
      let (after, call) = io.sdo_download position address bytes no_call t in
      (after, record { success = call.ok; bytes = []; abort = abort_of "SDO download failed" call })

  pub configure_rx_pdo : ℕ → List PdoMappingEntry → String → T → T × (Bool × String)
  configure_rx_pdo position entries = io.configure_pdo position 0x1600 entries

  pub configure_tx_pdo : ℕ → List PdoMappingEntry → String → T → T × (Bool × String)
  configure_tx_pdo position entries = io.configure_pdo position 0x1A00 entries

  unfoldable pub drain_emergency_queue : ℕ → T → T × List EmergencyMessage
  drain_emergency_queue zero t = (t, [])
  drain_emergency_queue (suc max_messages) t =
      let (after, polled) = io.poll_emergency t in
      let (last, rest) = drain_emergency_queue max_messages after in
      elim polled [ none ↦ (after, []) | some emergency ↦ (last, emergency ∷ rest) ]

  unfoldable pub read_file : ℕ → FoeRequest → T → T × FoeResponse
  read_file position request t =
      let (after, (ok, (response, error))) = io.foe_read position request no_response "" t in
      (
        after,
        record response {
          success = ok;
          error =
              if not ok
              then (if is_empty response.error then error else response.error)
              else response.error;
        },
      )

  pub write_file : ℕ → FoeRequest → List ℕ → String → T → T × (Bool × String)
  write_file = io.foe_write

  pub send_ethernet_over_ethercat : ℕ → List ℕ → String → T → T × (Bool × String)
  send_ethernet_over_ethercat = io.eoe_send

  pub receive_ethernet_over_ethercat : ℕ → List ℕ → String → T → T × (Bool × (List ℕ × String))
  receive_ethernet_over_ethercat = io.eoe_receive
