-- ===== src/Frame.antt =====
-- src/transport/ethercat_frame.cpp and include/openethercat/transport/ethercat_frame.hpp: one
-- datagram in one Ethernet frame. A MAC address is six bytes, as the `[6]` of its parameter says.
pub mod RoundTrip
pub mod Parse
mod Runs
use openethercat.Base.{
  ℕ, ◌+◌, ◌/◌, ◌*◌, ◌%◌, Bool, true, false, ◌||◌, not, List, [], ◌∷◌, ◌++◌, Option, none, some,
  if◌then◌else◌, ltb, ◌==◌, length,
}
use openethercat.Base.Bytes.{byte_at, slice, put_le16, read_le16}

pub record LrwRequest : Type 0 where
  pub datagram_index : ℕ
  pub logical_address : ℕ
  pub payload : List ℕ

pub record LrwResponse : Type 0 where
  pub datagram_index : ℕ
  pub payload : List ℕ
  pub working_counter : ℕ

pub record DatagramRequest : Type 0 where
  pub command : ℕ
  pub datagram_index : ℕ
  pub adp : ℕ
  pub ado : ℕ
  pub payload : List ℕ

pub record DatagramResponse : Type 0 where
  pub command : ℕ
  pub datagram_index : ℕ
  pub payload : List ℕ
  pub working_counter : ℕ

pub record Mac : Type 0 where
  pub m0 : ℕ
  pub m1 : ℕ
  pub m2 : ℕ
  pub m3 : ℕ
  pub m4 : ℕ
  pub m5 : ℕ

abbrev pub ether_type_ethercat : ℕ
ether_type_ethercat = 0x88a4

abbrev pub command_lrw : ℕ
command_lrw = 0x0c

abbrev ethernet_header_bytes : ℕ
ethernet_header_bytes = 14

abbrev datagram_header_bytes : ℕ
datagram_header_bytes = 10

-- 14 + 2 + 10 + 2.
abbrev frame_min_bytes : ℕ
frame_min_bytes = 28

abbrev pub mac_bytes : Mac → List ℕ
mac_bytes m = m.m0 ∷ m.m1 ∷ m.m2 ∷ m.m3 ∷ m.m4 ∷ m.m5 ∷ []

put_be16 : ℕ → List ℕ
put_be16 value = value / 256 % 256 ∷ value % 256 ∷ []

get_be16 : (ℕ → ℕ) → List ℕ → ℕ → ℕ
get_be16 over bs offset = byte_at over bs offset * 256 + byte_at over bs (offset + 1)

-- `value | 0x1000U` on a 16-bit value.
set_type_bit : ℕ → ℕ
set_type_bit value = if value / 4096 % 2 == 0 then value + 4096 else value

-- The sixteen bytes in front of the payload, from the EtherCAT header on.
datagram_header : DatagramRequest → List ℕ
unfolding set_type_bit put_le16
datagram_header r =
    put_le16 (set_type_bit ((datagram_header_bytes + length r.payload + 2) % 65536))
    ++ (r.command ∷ r.datagram_index ∷ [])
    ++ put_le16 r.adp
    ++ put_le16 r.ado
    ++ put_le16 (length r.payload % 2048)
    ++ put_le16 0

unfoldable pub build_datagram_frame : Mac → Mac → DatagramRequest → List ℕ
unfolding datagram_header put_be16 put_le16
build_datagram_frame destination source r =
    (mac_bytes destination ++ mac_bytes source ++ put_be16 ether_type_ethercat ++ datagram_header r)
    ++ (r.payload ++ put_le16 0)

-- What `parseDatagramFrame` returns once every check has passed.
abbrev response : (ℕ → ℕ) → List ℕ → ℕ → DatagramResponse
response over frame payload_size = record {
  command = byte_at over frame 16;
  datagram_index = byte_at over frame 17;
  payload = slice over frame 26 payload_size;
  working_counter = read_le16 over frame (26 + payload_size);
}

unfoldable pub parse_datagram_frame : (ℕ → ℕ) → List ℕ → ℕ → ℕ → ℕ → Option DatagramResponse
unfolding get_be16 read_le16
parse_datagram_frame over frame expected_command expected_index expected_bytes =
    if ltb (length frame) frame_min_bytes
    then none
    else if not (get_be16 over frame 12 == ether_type_ethercat)
    then none
    else if ltb (length frame) (read_le16 over frame 14 % 2048 + ethernet_header_bytes)
    then none
    else if not (byte_at over frame 16 == expected_command)
        || not (byte_at over frame 17 == expected_index)
    then none
    else if not (read_le16 over frame 22 % 2048 == expected_bytes)
    then none
    else if ltb (length frame) (26 + read_le16 over frame 22 % 2048 + 2)
    then none
    else some (response over frame (read_le16 over frame 22 % 2048))

pub build_lrw_frame : Mac → Mac → LrwRequest → List ℕ
build_lrw_frame destination source r = build_datagram_frame destination source (record {
  command = command_lrw;
  datagram_index = r.datagram_index;
  adp = r.logical_address % 65536;
  ado = r.logical_address / 65536 % 65536;
  payload = r.payload;
})

abbrev lrw_response : Option DatagramResponse → Option LrwResponse
lrw_response none = none
lrw_response (some d) = some (record {
  datagram_index = d.datagram_index;
  payload = d.payload;
  working_counter = d.working_counter;
})

pub parse_lrw_frame : (ℕ → ℕ) → List ℕ → ℕ → ℕ → Option LrwResponse
parse_lrw_frame over frame expected_index expected_bytes =
    lrw_response (parse_datagram_frame over frame command_lrw expected_index expected_bytes)
