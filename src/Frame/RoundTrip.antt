-- ===== src/Frame/RoundTrip.antt =====
-- What `parseDatagramFrame` makes of a frame that `buildDatagramFrame` wrote.
use openethercat.Base.{
  ℕ, ◌+◌, ◌/◌, ◌%◌, ◌<◌, ◌≤◌, ◌≡◌, refl, ◌∙◌, List, ◌++◌, none, some, arith, ltb, if◌then◌else◌,
  length, length-append,
}
use openethercat.Base.Bytes.{
  byte_at, slice, put_le16, read_le16, read_le32, byte_at-append_right, slice_middle, IsU32,
}
use openethercat.Frame.{
  LrwRequest, DatagramRequest, Mac, mac_bytes, put_be16, get_be16, datagram_header,
  build_datagram_frame, parse_datagram_frame, build_lrw_frame, parse_lrw_frame, command_lrw,
  ether_type_ethercat,
}

length-build_datagram_frame :
    (d s : Mac) (r : DatagramRequest) → length (build_datagram_frame d s r) ≡ length r.payload + 28
unfolding build_datagram_frame
length-build_datagram_frame d s r = omega (arith, length-append r.payload (put_le16 0))

-- What the parser reads in a built frame.
module _ (over : ℕ → ℕ) (d s : Mac) (r : DatagramRequest) where
  header_of_build :
      (get_be16 over (build_datagram_frame d s r) 12 ≡ 0x88a4)
      × (read_le16 over (build_datagram_frame d s r) 14 % 2048 ≤ length r.payload + 12)
      × (byte_at over (build_datagram_frame d s r) 16 ≡ r.command)
      × (byte_at over (build_datagram_frame d s r) 17 ≡ r.datagram_index)
      × (read_le16 over (build_datagram_frame d s r) 22 % 2048 ≡ length r.payload % 2048)
  unfolding build_datagram_frame get_be16 read_le16 byte_at
  header_of_build = (omega arith, ground arith, refl, refl, omega arith)

  payload_of_build : slice over (build_datagram_frame d s r) 26 (length r.payload) ≡ r.payload
  unfolding build_datagram_frame
  payload_of_build =
      slice_middle over
        (mac_bytes d ++ mac_bytes s ++ put_be16 ether_type_ethercat ++ datagram_header r) r.payload
        (put_le16 0) 26 (length r.payload) refl refl

  counter_of_build : read_le16 over (build_datagram_frame d s r) (26 + length r.payload) ≡ 0
  unfolding build_datagram_frame read_le16 put_le16 byte_at
  counter_of_build = omega (
    arith,
    wkc (26 + length r.payload) 0 (omega arith),
    wkc (26 + length r.payload + 1) 1 (omega arith),
  )
    where
      header : List ℕ
      header = mac_bytes d ++ mac_bytes s ++ put_be16 ether_type_ethercat ++ datagram_header r

      wkc :
          (i j : ℕ)
          → i ≡ 26 + length r.payload + j
          → byte_at over (build_datagram_frame d s r) i ≡ byte_at over (put_le16 0) j
      wkc i j e =
          byte_at-append_right over header (r.payload ++ put_le16 0) i (length r.payload + j)
            (omega (arith, e))
          ∙ byte_at-append_right over r.payload (put_le16 0) (length r.payload + j) j refl

-- The frame of a request, parsed with the request's own command, index and payload size (as
-- `sendAndReceiveDatagram` does), gives back the payload with working counter 0 if the payload is
-- shorter than 2048 bytes, and is refused if it is not.
pub parse-build_datagram_frame :
    (over : ℕ → ℕ) (d s : Mac) (r : DatagramRequest)
    → parse_datagram_frame over
        (build_datagram_frame d s r)
        r.command
        r.datagram_index
        (length r.payload)
      ≡ (if ltb (length r.payload) 2048
          then some (record {
            command = r.command;
            datagram_index = r.datagram_index;
            payload = r.payload;
            working_counter = 0;
          })
          else none)
unfolding parse_datagram_frame
parse-build_datagram_frame over d s r = ground (
  arith,
  length-build_datagram_frame d s r,
  header_of_build over d s r,
  payload_of_build over d s r,
  counter_of_build over d s r,
)

-- A process-data frame comes back the same way, and its two address fields, of 16 bits each, hold
-- the 32-bit logical address with the low half first.
parse-build_lrw_frame :
    (over : ℕ → ℕ) (d s : Mac) (r : LrwRequest)
    → IsU32 r.logical_address
    → length r.payload < 2048
    → (parse_lrw_frame over (build_lrw_frame d s r) r.datagram_index (length r.payload)
        ≡ some (record {
          datagram_index = r.datagram_index;
          payload = r.payload;
          working_counter = 0;
        }))
      × (read_le32 over (build_lrw_frame d s r) 18 ≡ r.logical_address)
unfolding parse_lrw_frame build_lrw_frame
parse-build_lrw_frame over d s r address short = (
  ground (arith, parse-build_datagram_frame over d s request),
  unfold build_datagram_frame read_le32 byte_at in omega arith,
)
  where
    request : DatagramRequest
    request = record {
      command = command_lrw;
      datagram_index = r.datagram_index;
      adp = r.logical_address % 65536;
      ado = r.logical_address / 65536 % 65536;
      payload = r.payload;
    }
