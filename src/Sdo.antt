-- ===== src/Sdo.antt =====
-- The CoE SDO requests and responses of src/transport/coe_mailbox_protocol.cpp, with the types of
-- include/openethercat/transport/coe_mailbox_protocol.hpp. A test `(cmd & 0xE0U) != k` on a byte is
-- written on its top three bits.
pub mod Upload
pub mod Download
mod Runs
use openethercat.Base.{
  ℕ, ◌+◌, ◌-◌, ◌/◌, ◌*◌, ◌%◌, min, Bool, true, false, ◌||◌, not, List, [], ◌∷◌, ◌++◌, if◌then◌else◌,
  ltb, leb, ◌==◌, length, take, String,
}
use openethercat.Base.Bytes.{byte_at, slice, put_le16, put_le32, read_le16, read_le32}

pub record SdoAddress : Type 0 where
  pub index : ℕ
  pub sub_index : ℕ

pub record InitiateUploadResponse : Type 0 where
  pub success : Bool
  pub expedited : Bool
  pub size_indicated : Bool
  pub complete_size : ℕ
  pub bytes : List ℕ
  pub abort_code : ℕ
  pub error : String

pub record SegmentUploadResponse : Type 0 where
  pub success : Bool
  pub last_segment : Bool
  pub toggle : ℕ
  pub bytes : List ℕ
  pub abort_code : ℕ
  pub error : String

pub record AckResponse : Type 0 where
  pub success : Bool
  pub toggle : ℕ
  pub abort_code : ℕ
  pub error : String

abbrev service_sdo_req : ℕ
service_sdo_req = 0x0002

abbrev service_sdo_res : ℕ
service_sdo_res = 0x0003

abbrev cmd_abort : ℕ
cmd_abort = 0x80

-- The records as their members are initialised, with the error set.
abbrev upload_failed : String → InitiateUploadResponse
upload_failed message = record {
  success = false;
  expedited = false;
  size_indicated = false;
  complete_size = 0;
  bytes = [];
  abort_code = 0;
  error = message;
}

abbrev segment_failed : String → SegmentUploadResponse
segment_failed message = record {
  success = false;
  last_segment = false;
  toggle = 0;
  bytes = [];
  abort_code = 0;
  error = message;
}

abbrev ack_failed : String → AckResponse
ack_failed message = record { success = false; toggle = 0; abort_code = 0; error = message }

unfoldable pub build_initiate_upload_request : SdoAddress → List ℕ
unfolding put_le16 put_le32
build_initiate_upload_request a =
    put_le16 service_sdo_req ++ (0x40 ∷ []) ++ put_le16 a.index ++ (a.sub_index ∷ []) ++ put_le32 0

-- What an accepted initiate response says: data in the response itself, or the size to come.
initiate_upload_data : (ℕ → ℕ) → List ℕ → ℕ → InitiateUploadResponse
unfolding read_le32
initiate_upload_data over payload cmd =
    let accepted : InitiateUploadResponse = record {
      success = true;
      expedited = not (cmd / 2 % 2 == 0);
      size_indicated = not (cmd % 2 == 0);
      complete_size = 0;
      bytes = [];
      abort_code = 0;
      error = "";
    } in
    if not (cmd / 2 % 2 == 0)
    then record accepted {
      bytes = slice over payload 6 (4 - min (cmd / 4 % 4) 3);
      complete_size = length (slice over payload 6 (4 - min (cmd / 4 % 4) 3));
    }
    else if not (cmd % 2 == 0)
    then record accepted { complete_size = read_le32 over payload 6 }
    else accepted

unfoldable pub parse_initiate_upload_response :
    (ℕ → ℕ) → List ℕ → SdoAddress → InitiateUploadResponse
unfolding read_le16 read_le32 initiate_upload_data
parse_initiate_upload_response over payload expected =
    if ltb (length payload) 10
    then upload_failed "SDO upload initiate response too short"
    else if not (read_le16 over payload 0 == service_sdo_res)
    then upload_failed "Unexpected CoE service in upload initiate response"
    else if not (read_le16 over payload 3 == expected.index)
        || not (byte_at over payload 5 == expected.sub_index)
    then upload_failed "SDO response address mismatch"
    else if byte_at over payload 2 == cmd_abort
    then record (upload_failed "SDO abort") { abort_code = read_le32 over payload 6 }
    else if not (byte_at over payload 2 / 32 % 8 == 2)
    then upload_failed "Unexpected SDO command for upload initiate response"
    else initiate_upload_data over payload (byte_at over payload 2)

unfoldable pub build_upload_segment_request : ℕ → List ℕ
unfolding put_le16
build_upload_segment_request toggle = put_le16 service_sdo_req ++ ((0x60 + toggle % 2 * 16) ∷ [])

unfoldable pub parse_upload_segment_response : (ℕ → ℕ) → List ℕ → SegmentUploadResponse
unfolding read_le16 read_le32
parse_upload_segment_response over payload =
    if ltb (length payload) 3
    then segment_failed "SDO upload segment response too short"
    else if not (read_le16 over payload 0 == service_sdo_res)
    then segment_failed "Unexpected CoE service in upload segment response"
    else if byte_at over payload 2 == cmd_abort
    then record (segment_failed "SDO abort") {
      abort_code = if leb 7 (length payload) then read_le32 over payload 3 else 0;
    }
    else if not (byte_at over payload 2 / 32 % 8 == 0)
    then segment_failed "Unexpected SDO command for upload segment response"
    else if ltb (length payload - 3) (byte_at over payload 2 / 2 % 8)
    then record (segment_failed "Invalid unused-byte count in segment response") {
      toggle = byte_at over payload 2 / 16 % 2;
      last_segment = not (byte_at over payload 2 % 2 == 0);
    }
    else record {
      success = true;
      last_segment = not (byte_at over payload 2 % 2 == 0);
      toggle = byte_at over payload 2 / 16 % 2;
      bytes = slice over payload 3 (length payload - 3 - byte_at over payload 2 / 2 % 8);
      abort_code = 0;
      error = "";
    }

unfoldable pub build_initiate_download_request : SdoAddress → ℕ → List ℕ
unfolding put_le16 put_le32
build_initiate_download_request a total_size =
    put_le16 service_sdo_req
    ++ (0x21 ∷ [])
    ++ put_le16 a.index
    ++ (a.sub_index ∷ [])
    ++ put_le32 total_size

unfoldable pub parse_initiate_download_response : (ℕ → ℕ) → List ℕ → SdoAddress → AckResponse
unfolding read_le16 read_le32
parse_initiate_download_response over payload expected =
    if ltb (length payload) 6
    then ack_failed "SDO initiate download response too short"
    else if not (read_le16 over payload 0 == service_sdo_res)
    then ack_failed "Unexpected CoE service in SDO initiate download response"
    else if byte_at over payload 2 == cmd_abort
    then record (ack_failed "SDO abort") {
      abort_code = if leb 7 (length payload) then read_le32 over payload 3 else 0;
    }
    else if not (byte_at over payload 2 == 0x60)
    then ack_failed "Unexpected SDO command for initiate download response"
    else if not (read_le16 over payload 3 == expected.index)
        || not (byte_at over payload 5 == expected.sub_index)
    then ack_failed "SDO response address mismatch"
    else record { success = true; toggle = 0; abort_code = 0; error = "" }

-- `unused` is cut to a byte before its three low bits are taken, which changes nothing.
unfoldable pub build_download_segment_request : ℕ → Bool → List ℕ → ℕ → List ℕ
unfolding put_le16
build_download_segment_request toggle last_segment segment max_segment_bytes =
    let clamped = min (length segment) max_segment_bytes in
    let unused = (max_segment_bytes - clamped) % 256 in
    put_le16 service_sdo_req
    ++ ((toggle % 2 * 16 + unused % 8 * 2 + (if last_segment then 1 else 0)) ∷ [])
    ++ take clamped segment

unfoldable pub parse_download_segment_response : (ℕ → ℕ) → List ℕ → ℕ → AckResponse
unfolding read_le16 read_le32
parse_download_segment_response over payload expected_toggle =
    if ltb (length payload) 3
    then ack_failed "SDO download segment response too short"
    else if not (read_le16 over payload 0 == service_sdo_res)
    then ack_failed "Unexpected CoE service in SDO download segment response"
    else if byte_at over payload 2 == cmd_abort
    then record (ack_failed "SDO abort") {
      abort_code = if leb 7 (length payload) then read_le32 over payload 3 else 0;
    }
    else if not (byte_at over payload 2 / 32 % 8 == 1)
    then ack_failed "Unexpected SDO command for download segment response"
    else if not (byte_at over payload 2 / 16 % 2 == expected_toggle % 2)
    then record (ack_failed "SDO download segment toggle mismatch") {
      toggle = byte_at over payload 2 / 16 % 2;
    }
    else record {
      success = true;
      toggle = byte_at over payload 2 / 16 % 2;
      abort_code = 0;
      error = "";
    }
