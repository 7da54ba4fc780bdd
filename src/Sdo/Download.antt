-- ===== src/Sdo/Download.antt =====
-- Downloads: the segments that are sent and the acknowledgements that are accepted.
use openethercat.Base.{
  ℕ, ◌+◌, ◌-◌, ◌*◌, ◌/◌, ◌%◌, ◌<◌, ◌≤◌, ◌≡◌, refl, ◌↔◌, List, [], ◌∷◌, Bool, true, false, arith,
  if◌then◌else◌, length, min, take_all, leb, drop,
}
use openethercat.Base.Bytes.{byte_at, slice, read_le16, slice_rest}
use openethercat.Sdo.Upload.{parse_upload_segment_response_at}
use openethercat.Sdo.{
  SdoAddress, parse_upload_segment_response, build_download_segment_request,
  parse_initiate_download_response, parse_download_segment_response,
}

min_of_le : (a b : ℕ) → a ≤ b → min a b ≡ a
min_of_le a b h = omega arith

segment_fields :
    (over : ℕ → ℕ) (toggle mark : ℕ) (segment : List ℕ)
    → length segment ≤ 7
    → mark < 2
    → let sent = 2 ∷ 0 ∷ (toggle % 2 * 16 + (7 - length segment) % 256 % 8 * 2 + mark) ∷ segment in
      (length sent ≡ length segment + 3)
      × (read_le16 over sent 0 ≡ 2)
      × (byte_at over sent 2 / 32 ≡ 0)
      × (byte_at over sent 2 / 16 % 2 ≡ toggle % 2)
      × (byte_at over sent 2 / 2 % 8 ≡ 7 - length segment)
      × (byte_at over sent 2 % 2 ≡ mark)
      × (slice over sent 3 (length segment) ≡ segment)
unfolding byte_at read_le16
segment_fields over toggle mark segment h m =
    (omega arith, refl, omega arith, omega arith, omega arith, omega arith, whole)
  where
    whole :
        slice over
          (2 ∷ 0 ∷ (toggle % 2 * 16 + (7 - length segment) % 256 % 8 * 2 + mark) ∷ segment)
          3
          (length segment)
        ≡ segment
    whole = slice_rest over (2 ∷ 0 ∷ _ ∷ []) segment 3 (length segment) refl refl

-- A segment of at most seven bytes, as `sdoDownload` cuts them, is sent as a three-byte header and
-- the data: the header names the SDO request service, and its command byte holds zero top bits, the
-- toggle, the count of bytes missing to seven and the last-segment mark.
build_download_segment_request_fields :
    (over : ℕ → ℕ) (toggle : ℕ) (last : Bool) (segment : List ℕ)
    → length segment ≤ 7
    → (length (build_download_segment_request toggle last segment 7) ≡ length segment + 3)
      × (read_le16 over (build_download_segment_request toggle last segment 7) 0 ≡ 2)
      × (byte_at over (build_download_segment_request toggle last segment 7) 2 / 32 ≡ 0)
      × (byte_at over (build_download_segment_request toggle last segment 7) 2 / 16 % 2
          ≡ toggle % 2)
      × (byte_at over (build_download_segment_request toggle last segment 7) 2 / 2 % 8
          ≡ 7 - length segment)
      × (byte_at over (build_download_segment_request toggle last segment 7) 2 % 2
          ≡ (if last then 1 else 0))
      × (slice over (build_download_segment_request toggle last segment 7) 3 (length segment)
          ≡ segment)
unfolding build_download_segment_request
build_download_segment_request_fields over toggle true segment h =
    rw (min_of_le (length segment) 7 h, take_all (length segment) segment (omega arith))
      (segment_fields over toggle 1 segment h (omega arith))
build_download_segment_request_fields over toggle false segment h =
    rw (min_of_le (length segment) 7 h, take_all (length segment) segment (omega arith))
      (segment_fields over toggle 0 segment h (omega arith))

-- An initiate-download response is accepted exactly if it has six bytes, is an SDO response, has
-- command 0x60 and names the object asked for.
parse_initiate_download_response-success_iff :
    (over : ℕ → ℕ) (payload : List ℕ) (a : SdoAddress)
    → ((parse_initiate_download_response over payload a).success ≡ true) ↔ (
        (6 ≤ length payload)
        × (read_le16 over payload 0 ≡ 3)
        × (byte_at over payload 2 ≡ 0x60)
        × (read_le16 over payload 3 ≡ a.index)
        × (byte_at over payload 5 ≡ a.sub_index))
unfolding parse_initiate_download_response
parse_initiate_download_response-success_iff over payload a = (λ h. ground arith, λ h. ground arith)

-- A segment is acknowledged exactly if the response is an SDO response of at least three bytes whose
-- command's top three bits are 1 and whose toggle bit is the parity of the toggle sent; so the
-- acknowledgement of one segment is never taken for that of the next.
pub parse_download_segment_response-success_iff :
    (over : ℕ → ℕ) (payload : List ℕ) (toggle : ℕ)
    → (((parse_download_segment_response over payload toggle).success ≡ true) ↔ (
        (3 ≤ length payload)
        × (read_le16 over payload 0 ≡ 3)
        × (byte_at over payload 2 / 32 % 8 ≡ 1)
        × (byte_at over payload 2 / 16 % 2 ≡ toggle % 2)))
      × ((parse_download_segment_response over payload toggle).success ≡ true
          → (parse_download_segment_response over payload (toggle + 1)).success ≡ false)
unfolding parse_download_segment_response
parse_download_segment_response-success_iff over payload toggle =
    ((λ h. ground arith, λ h. ground arith), λ h. ground arith)

-- The bytes of a segment request under the service of a response.
abbrev pub as_response : List ℕ → List ℕ
as_response sent = 3 ∷ 0 ∷ drop 2 sent

-- A segment request is not padded to the seven data bytes that its unused count refers to. Read by
-- the rule that this code applies to segments that it receives, a segment of `n` bytes is refused
-- if 2 * n is below 7, and keeps 2 * n - 7 of its bytes if not: all of them only if `n` is 7.
pub parse-build_download_segment_request :
    (over : ℕ → ℕ) (toggle : ℕ) (last : Bool) (segment : List ℕ)
    → length segment ≤ 7
    → let seen =
        parse_upload_segment_response over
          (as_response (build_download_segment_request toggle last segment 7)) in
      (seen.success ≡ leb 7 (2 * length segment))
      × (seen.success ≡ true → length seen.bytes + 7 ≡ 2 * length segment)
unfolding build_download_segment_request byte_at read_le16
parse-build_download_segment_request over toggle last segment h =
    let sent = build_download_segment_request toggle last segment 7 in
    let fields = build_download_segment_request_fields over toggle last segment h in
    let (accepted, kept) =
      parse_upload_segment_response_at over (as_response sent) (length segment) (7 - length segment)
        fields.0 refl fields.2 fields.4 in
    (ground (arith, accepted), λ e. omega (arith, kept e))
