-- ===== src/Sdo/Upload.antt =====
-- Uploads: which responses are accepted, and what an accepted one, an abort and a refusal carry.
use text.Mathlib.TextEquality.{eq_iff}
use openethercat.Base.{
  ap, ℕ, ◌+◌, ◌-◌, ◌/◌, ◌%◌, ◌≤◌, ◌≡◌, ◌↔◌, List, [], true, false, arith, if◌then◌else◌, length,
  min, leb,
}
use openethercat.Base.Bytes.{byte_at, read_le16, read_le32, byte_at-over, slice-over, length-slice}
use openethercat.Sdo.{
  SdoAddress, InitiateUploadResponse, parse_initiate_upload_response, parse_upload_segment_response,
}

-- No response, however short or malformed, makes the parser read outside it.
pub parse_initiate_upload_response-over :
    (f g : ℕ → ℕ) (payload : List ℕ) (a : SdoAddress)
    → parse_initiate_upload_response f payload a ≡ parse_initiate_upload_response g payload a
unfolding parse_initiate_upload_response
parse_initiate_upload_response-over f g payload a = ground (
  arith,
  byte_at-over f g payload 0,
  byte_at-over f g payload 1,
  byte_at-over f g payload 2,
  byte_at-over f g payload 3,
  byte_at-over f g payload 4,
  byte_at-over f g payload 5,
  byte_at-over f g payload 6,
  byte_at-over f g payload 7,
  byte_at-over f g payload 8,
  byte_at-over f g payload 9,
  slice-over f g payload 6 (4 - min (byte_at f payload 2 / 4 % 4) 3),
)

-- An initiate-upload response is accepted exactly if it has ten bytes, is an SDO response, names
-- the object asked for, and its command's top three bits are 2.
parse_initiate_upload_response-success_iff :
    (over : ℕ → ℕ) (payload : List ℕ) (a : SdoAddress)
    → ((parse_initiate_upload_response over payload a).success ≡ true) ↔ (
        (10 ≤ length payload)
        × (read_le16 over payload 0 ≡ 3)
        × (read_le16 over payload 3 ≡ a.index)
        × (byte_at over payload 5 ≡ a.sub_index)
        × (byte_at over payload 2 / 32 % 8 ≡ 2))
unfolding parse_initiate_upload_response
parse_initiate_upload_response-success_iff over payload a = (λ h. ground arith, λ h. ground arith)

-- An accepted response carries one to four bytes of data, complete, if it is expedited, and no data
-- otherwise, with the 32-bit size from offset 6 if a size is indicated and size 0 if not.
pub parse_initiate_upload_response-data :
    (over : ℕ → ℕ) (payload : List ℕ) (a : SdoAddress)
    → (parse_initiate_upload_response over payload a).success ≡ true
    → ((parse_initiate_upload_response over payload a).expedited ≡ true
        → (1 ≤ length (parse_initiate_upload_response over payload a).bytes)
          × (length (parse_initiate_upload_response over payload a).bytes ≤ 4)
          × ((parse_initiate_upload_response over payload a).complete_size
              ≡ length (parse_initiate_upload_response over payload a).bytes))
      × ((parse_initiate_upload_response over payload a).expedited ≡ false
          → ((parse_initiate_upload_response over payload a).bytes ≡ [])
            × ((parse_initiate_upload_response over payload a).complete_size ≡ (
                if (parse_initiate_upload_response over payload a).size_indicated
                then read_le32 over payload 6
                else 0)))
unfolding parse_initiate_upload_response
parse_initiate_upload_response-data over payload a h = (
  λ e. ground (arith, length-slice over payload 6 (4 - min (byte_at over payload 2 / 4 % 4) 3)),
  λ e. ground arith,
)

-- A response to the object asked for with the abort command reports the slave's abort code, and no
-- other response is reported as an abort.
parse_initiate_upload_response-abort :
    (over : ℕ → ℕ) (payload : List ℕ) (a : SdoAddress)
    → (parse_initiate_upload_response over payload a ≡ record {
      success = false;
      expedited = false;
      size_indicated = false;
      complete_size = 0;
      bytes = [];
      abort_code = read_le32 over payload 6;
      error = "SDO abort";
    })
      ↔ ((10 ≤ length payload)
          × (read_le16 over payload 0 ≡ 3)
          × (read_le16 over payload 3 ≡ a.index)
          × (byte_at over payload 5 ≡ a.sub_index)
          × (byte_at over payload 2 ≡ 0x80))
unfolding parse_initiate_upload_response
parse_initiate_upload_response-abort over payload a = (
  λ h. ground (
    arith,
    ap InitiateUploadResponse.error h,
    eq_iff "SDO upload initiate response too short" "SDO abort",
    eq_iff "Unexpected CoE service in upload initiate response" "SDO abort",
    eq_iff "SDO response address mismatch" "SDO abort",
    eq_iff "Unexpected SDO command for upload initiate response" "SDO abort",
    eq_iff "" "SDO abort",
  ),
  λ h. ground arith,
)

-- A segment is accepted exactly if it is an SDO response of at least three bytes whose command has
-- zero top bits and announces no more unused bytes than there are; then the data are the bytes
-- behind the command less the unused ones, and the toggle is its bit.
parse_upload_segment_response-success_iff :
    (over : ℕ → ℕ) (payload : List ℕ)
    → ((parse_upload_segment_response over payload).success ≡ true) ↔ (
        (3 ≤ length payload)
        × (read_le16 over payload 0 ≡ 3)
        × (byte_at over payload 2 / 32 % 8 ≡ 0)
        × (byte_at over payload 2 / 2 % 8 + 3 ≤ length payload)
        × (length (parse_upload_segment_response over payload).bytes
              + byte_at over payload 2 / 2 % 8
              + 3
            ≡ length payload)
        × ((parse_upload_segment_response over payload).toggle ≡ byte_at over payload 2 / 16 % 2))
unfolding parse_upload_segment_response
parse_upload_segment_response-success_iff over payload = (
  λ h.
      ground
        (arith, length-slice over payload 3 (length payload - 3 - byte_at over payload 2 / 2 % 8)),
  λ h. ground arith,
)

pub parse_upload_segment_response-over :
    (f g : ℕ → ℕ) (payload : List ℕ)
    → parse_upload_segment_response f payload ≡ parse_upload_segment_response g payload
unfolding parse_upload_segment_response
parse_upload_segment_response-over f g payload = ground (
  arith,
  byte_at-over f g payload 0,
  byte_at-over f g payload 1,
  byte_at-over f g payload 2,
  byte_at-over f g payload 3,
  byte_at-over f g payload 4,
  byte_at-over f g payload 5,
  byte_at-over f g payload 6,
  slice-over f g payload 3 (length payload - 3 - byte_at f payload 2 / 2 % 8),
)

-- The same rule read from the parts of the response.
pub parse_upload_segment_response_at :
    (over : ℕ → ℕ) (payload : List ℕ) (n unused : ℕ)
    → length payload ≡ n + 3
    → read_le16 over payload 0 ≡ 3
    → byte_at over payload 2 / 32 ≡ 0
    → byte_at over payload 2 / 2 % 8 ≡ unused
    → ((parse_upload_segment_response over payload).success ≡ leb unused n)
      × ((parse_upload_segment_response over payload).success ≡ true
          → length (parse_upload_segment_response over payload).bytes + unused ≡ n)
unfolding parse_upload_segment_response
parse_upload_segment_response_at over payload n unused size service top hu = (
  ground arith,
  λ h.
      ground
        (arith, length-slice over payload 3 (length payload - 3 - byte_at over payload 2 / 2 % 8)),
)
