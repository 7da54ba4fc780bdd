-- ===== src/Frame/Runs.antt =====
-- The theorems about frames at concrete inputs.
use openethercat.Base.{ℕ, ◌+◌, ◌≤◌, ◌≡◌, refl, [], ◌∷◌, some, length}
use openethercat.Frame.{
  Mac, DatagramRequest, DatagramResponse, LrwRequest, build_datagram_frame, parse_datagram_frame,
}
use openethercat.Frame.Parse.{parse_datagram_frame_sound}
use openethercat.Frame.RoundTrip.{parse-build_datagram_frame}

abbrev broadcast : Mac
broadcast = record { m0 = 255; m1 = 255; m2 = 255; m3 = 255; m4 = 255; m5 = 255 }

abbrev adapter : Mac
adapter = record { m0 = 2; m1 = 0; m2 = 0; m3 = 0; m4 = 0; m5 = 1 }

abbrev past_end : ℕ → ℕ
past_end i = 0xdd

abbrev status_request : DatagramRequest
status_request = record {
  command = 7;
  datagram_index = 9;
  adp = 0;
  ado = 0x0130;
  payload = 0 ∷ 0 ∷ [];
}

abbrev status_response : DatagramResponse
status_response = record {
  command = 7;
  datagram_index = 9;
  payload = 0 ∷ 0 ∷ [];
  working_counter = 0;
}

abbrev outputs : LrwRequest
outputs = record { datagram_index = 3; logical_address = 0x10203; payload = 1 ∷ [] }

status_frame :
    build_datagram_frame broadcast adapter status_request
    ≡ 255 ∷ 255 ∷ 255 ∷ 255 ∷ 255 ∷ 255 ∷ 2 ∷ 0 ∷ 0 ∷ 0 ∷ 0 ∷ 1 ∷ 0x88 ∷ 0xa4 ∷ 14 ∷ 0x10 ∷ 7 ∷ 9
      ∷ 0 ∷ 0 ∷ 0x30 ∷ 1 ∷ 2 ∷ 0 ∷ 0 ∷ 0 ∷ 0 ∷ 0 ∷ 0 ∷ 0 ∷ []
unfolding build_datagram_frame
status_frame = refl

status_parsed :
    parse_datagram_frame past_end (build_datagram_frame broadcast adapter status_request) 7 9 2
    ≡ some status_response
status_parsed = parse-build_datagram_frame past_end broadcast adapter status_request

parse-build_datagram_frame_example :
    parse_datagram_frame past_end (build_datagram_frame broadcast adapter status_request) 7 9 2
    ≡ some status_response
parse-build_datagram_frame_example =
    parse-build_datagram_frame past_end broadcast adapter status_request

parse_datagram_frame_sound_example :
    2 + 28 ≤ length (build_datagram_frame broadcast adapter status_request)
parse_datagram_frame_sound_example =
    (parse_datagram_frame_sound past_end (build_datagram_frame broadcast adapter status_request) 7 9
      2 status_response status_parsed).0
