-- ===== src/Raw/Transfers.antt =====
-- SDO transfers and the emergency queue of the raw socket transport on a simulated network.
use openethercat.Base.{◌≡◌, refl, true, false, [], ◌∷◌, some, replicate, arith}
use openethercat.Base.Bytes.{byte_at, slice}
use openethercat.Mailbox.{EmergencyMessage}
use openethercat.Raw.{RawTransport, no_class, set_emergency_queue_limit}
use openethercat.Raw.Calls.{foe_read_raw, foe_write_raw, eoe_send_raw, eoe_receive_raw}
use openethercat.Raw.Download.{download_segments, sdo_download_raw, configure_pdo_raw}
use openethercat.Raw.Invariant.{IsSound}
use openethercat.Raw.Mailbox.{queue_emergency}
use openethercat.Raw.Queue.{emergency_queue_newest, newest}
use openethercat.Raw.Segments.{
  final_segment, further_segment, upload_segments-joined, download_segments_ends,
}
use openethercat.Raw.Sim.{Net, sim, zeros, raw, scripted, route, mailbox_bytes}
use openethercat.Raw.Soundness.{mailbox-IsSound, LeavesSound}
use openethercat.Raw.Acknowledged.{Acknowledged}
use openethercat.Raw.Upload.{ask_segment, upload_segments, sdo_upload_raw, uploaded}
use openethercat.Transport.{FoeRequest}
use openethercat.Sdo.{SdoAddress, SegmentUploadResponse}

-- Two segments; the answer to each write is what was written.
abbrev serving : RawTransport Net
serving = scripted (
    replicate 32 0
    ∷ mailbox_bytes 0 (3 ∷ 0 ∷ 0 ∷ 10 ∷ 11 ∷ [])
    ∷ replicate 32 0
    ∷ mailbox_bytes 1 (3 ∷ 0 ∷ 17 ∷ 12 ∷ [])
    ∷ [])

abbrev first_segment : SegmentUploadResponse
first_segment = record {
  success = true;
  last_segment = false;
  toggle = 0;
  bytes = 10 ∷ 11 ∷ [];
  abort_code = 0;
  error = "";
}

abbrev second_segment : SegmentUploadResponse
second_segment = record {
  success = true;
  last_segment = true;
  toggle = 1;
  bytes = 12 ∷ [];
  abort_code = 0;
  error = "";
}

abbrev after_first : RawTransport Net
unfolding ask_segment byte_at slice
after_first = (ask_segment sim zeros route 0 "" serving).0

abbrev after_second : RawTransport Net
unfolding ask_segment byte_at slice after_first
after_second = (ask_segment sim zeros route 1 "" after_first).0

upload_segments-joined_example :
    upload_segments sim zeros route 2 0 [] "" serving
    ≡ some (record after_second { last_error_class = no_class }, uploaded (10 ∷ 11 ∷ 12 ∷ []) "")
unfolding ask_segment byte_at slice after_first after_second
upload_segments-joined_example =
    upload_segments-joined sim zeros route
      (further_segment 0 "" serving after_first after_second first_segment "" "" (_ ∷ []) refl refl
        (final_segment 1 "" after_first after_second second_segment "" refl refl))
      2 [] (omega arith)

-- One segment, and its acknowledgement.
abbrev acking : RawTransport Net
acking = scripted (replicate 32 0 ∷ mailbox_bytes 0 (3 ∷ 0 ∷ 32 ∷ []) ∷ [])

download_segments_ends_example :
    download_segments sim zeros route 9 0 (1 ∷ 2 ∷ 3 ∷ []) "" acking
    ≡ download_segments sim zeros route 3 0 (1 ∷ 2 ∷ 3 ∷ []) "" acking
download_segments_ends_example =
    download_segments_ends sim zeros route 0 9 (1 ∷ 2 ∷ 3 ∷ []) "" acking (omega arith)

abbrev fresh : IsSound raw
fresh = record {
  queue_fits = omega arith;
  limit_positive = omega arith;
  index_byte = omega arith;
  counter_byte = omega arith;
  balanced = refl;
}

abbrev object : SdoAddress
object = record { index = 0x1018; sub_index = 1 }

abbrev file : FoeRequest
file = record { file_name = "recipe.bin"; password = 0; max_chunk_bytes = 256 }

mailbox-IsSound_example :
    LeavesSound (sdo_upload_raw sim zeros 8 1 object raw)
    × IsSound (sdo_download_raw sim zeros 1 object (1 ∷ []) raw).0
    × IsSound (configure_pdo_raw sim zeros 1 0x1600 [] raw).0
    × LeavesSound (foe_read_raw sim zeros 8 1 file raw)
    × LeavesSound (foe_write_raw sim zeros 8 1 file (1 ∷ []) raw)
    × IsSound (eoe_send_raw sim zeros 1 (1 ∷ []) raw).0
    × IsSound (eoe_receive_raw sim zeros 1 raw).0
mailbox-IsSound_example = mailbox-IsSound sim zeros 8 1 0x1600 object (1 ∷ []) [] file raw fresh

abbrev emergency : EmergencyMessage
emergency = record {
  error_code = 1;
  error_register = 2;
  manufacturer_data = [];
  slave_position = 3;
}

emergency_queue_newest_example :
    ((queue_emergency emergency raw).emergencies ≡ newest 256 (emergency ∷ []))
    × ((set_emergency_queue_limit 0 raw).emergencies ≡ newest 1 [])
emergency_queue_newest_example = emergency_queue_newest emergency 0 raw fresh
