-- ===== src/Sdo/Runs.antt =====
-- The theorems about SDO messages at concrete inputs.
use openethercat.Base.{ℕ, ◌≤◌, ◌≡◌, refl, List, [], ◌∷◌, arith, length, true, false}
use openethercat.Base.Bytes.{byte_at}
use openethercat.Sdo.{
  SdoAddress, parse_initiate_upload_response, parse_upload_segment_response,
  build_download_segment_request,
}
use openethercat.Sdo.Upload.{
  parse_initiate_upload_response-over, parse_initiate_upload_response-data,
  parse_upload_segment_response-over,
}
use openethercat.Sdo.Download.{as_response, parse-build_download_segment_request}

abbrev past_end : ℕ → ℕ
past_end i = 0xdd

abbrev identity : SdoAddress
identity = record { index = 0x1018; sub_index = 1 }

-- An expedited answer of four bytes, and an abort.
abbrev expedited : List ℕ
expedited = 3 ∷ 0 ∷ 0x43 ∷ 0x18 ∷ 0x10 ∷ 1 ∷ 2 ∷ 0 ∷ 0 ∷ 0 ∷ []

abbrev aborted : List ℕ
aborted = 3 ∷ 0 ∷ 0x80 ∷ 0x18 ∷ 0x10 ∷ 1 ∷ 0 ∷ 0 ∷ 2 ∷ 6 ∷ []

accepted : (parse_initiate_upload_response past_end expedited identity).success ≡ true
unfolding parse_initiate_upload_response byte_at
accepted = refl

parse_initiate_upload_response-data_example :
    (1 ≤ length (parse_initiate_upload_response past_end expedited identity).bytes)
    × (length (parse_initiate_upload_response past_end expedited identity).bytes ≤ 4)
    × ((parse_initiate_upload_response past_end expedited identity).complete_size
        ≡ length (parse_initiate_upload_response past_end expedited identity).bytes)
unfolding parse_initiate_upload_response byte_at
parse_initiate_upload_response-data_example =
    (parse_initiate_upload_response-data past_end expedited identity accepted).0 refl

parse_initiate_upload_response-over_example :
    parse_initiate_upload_response past_end (3 ∷ 0 ∷ []) identity
    ≡ parse_initiate_upload_response (λ i. 0) (3 ∷ 0 ∷ []) identity
parse_initiate_upload_response-over_example =
    parse_initiate_upload_response-over past_end (λ i. 0) (3 ∷ 0 ∷ []) identity

-- The last segment, of two bytes.
abbrev last_two : List ℕ
last_two = 3 ∷ 0 ∷ 0x1b ∷ 7 ∷ 8 ∷ 0 ∷ 0 ∷ 0 ∷ 0 ∷ 0 ∷ []

parse_upload_segment_response-over_example :
    parse_upload_segment_response past_end (3 ∷ 0 ∷ 0x80 ∷ [])
    ≡ parse_upload_segment_response (λ i. 0) (3 ∷ 0 ∷ 0x80 ∷ [])
parse_upload_segment_response-over_example =
    parse_upload_segment_response-over past_end (λ i. 0) (3 ∷ 0 ∷ 0x80 ∷ [])

parse-build_download_segment_request_example :
    (parse_upload_segment_response past_end
      (as_response (build_download_segment_request 0 true (1 ∷ 2 ∷ 3 ∷ []) 7))).success
    ≡ false
parse-build_download_segment_request_example =
    (parse-build_download_segment_request past_end 0 true (1 ∷ 2 ∷ 3 ∷ []) (omega arith)).0
