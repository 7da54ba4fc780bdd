-- ===== src/Raw/Soundness.antt =====
-- The mailbox services of src/transport/linux_raw_socket_transport.cpp and
-- src/transport/linux_raw_socket_transport_foe_eoe.cpp keep what holds of the transport.
use openethercat.Base.{ℕ, List, Option, none, some}
use openethercat.Raw.{RawTransport, System}
use openethercat.Raw.Calls.{foe_read_raw, foe_write_raw, eoe_send_raw, eoe_receive_raw}
use openethercat.Raw.Download.{sdo_download_raw, configure_pdo_raw}
use openethercat.Raw.Invariant.{IsSound, Steps-IsSound}
use openethercat.Raw.Steps.Calls.{
  foe_read_raw-MayStepTo, foe_write_raw-MayStepTo, eoe_send_raw-StepsTo, eoe_receive_raw-StepsTo,
}
use openethercat.Raw.Steps.Downloads.{sdo_download_raw-StepsTo, configure_pdo_raw-StepsTo}
use openethercat.Raw.Steps.Transactions.{MayStepTo, MayStepTo-some, sdo_upload_raw-MayStepTo}
use openethercat.Raw.Upload.{sdo_upload_raw}
use openethercat.Sdo.{SdoAddress}
use openethercat.Transport.{PdoMappingEntry, FoeRequest}

-- What a call leaves, if it returns.
abbrev pub LeavesSound : {N A : Type 0} → Option (RawTransport N × A) → Type 0
LeavesSound none = Unit
LeavesSound (some r) = IsSound r.0

may-LeavesSound :
    {N A : Type 0} (sys : System N) (t : RawTransport N) (o : Option (RawTransport N × A))
    → MayStepTo sys t o
    → IsSound t
    → LeavesSound o
may-LeavesSound sys t none h s = tt
may-LeavesSound sys t (some r) h s = Steps-IsSound sys (MayStepTo-some sys h) s

-- The mailbox calls, whether they succeed or fail and whatever the slave answers: SDO uploads, downloads
-- and PDO configurations, files read and written, and Ethernet frames sent and received keep the
-- emergency queue within its limit, the datagram and mailbox counters within a byte, and the number
-- of failed transactions equal to the sum of the failures by class, in 64 bits. Of uploads and files:
-- those that return.
pub mailbox-IsSound :
    {N : Type 0} (sys : System N) (over : ℕ → ℕ) (fuel position assign_index : ℕ)
    (address : SdoAddress) (bytes : List ℕ) (entries : List PdoMappingEntry) (request : FoeRequest)
    (t : RawTransport N)
    → IsSound t
    → LeavesSound (sdo_upload_raw sys over fuel position address t)
      × IsSound (sdo_download_raw sys over position address bytes t).0
      × IsSound (configure_pdo_raw sys over position assign_index entries t).0
      × LeavesSound (foe_read_raw sys over fuel position request t)
      × LeavesSound (foe_write_raw sys over fuel position request bytes t)
      × IsSound (eoe_send_raw sys over position bytes t).0
      × IsSound (eoe_receive_raw sys over position t).0
mailbox-IsSound sys over fuel position assign_index address bytes entries request t s = (
  may-LeavesSound sys t _ (sdo_upload_raw-MayStepTo sys over fuel position address t) s,
  Steps-IsSound sys (sdo_download_raw-StepsTo sys over position address bytes t).stepped s,
  Steps-IsSound sys (configure_pdo_raw-StepsTo sys over position assign_index entries t).stepped s,
  may-LeavesSound sys t _ (foe_read_raw-MayStepTo sys over position fuel request t) s,
  may-LeavesSound sys t _ (foe_write_raw-MayStepTo sys over position fuel request bytes t) s,
  Steps-IsSound sys (eoe_send_raw-StepsTo sys over position bytes t).stepped s,
  Steps-IsSound sys (eoe_receive_raw-StepsTo sys over position t).stepped s,
)
