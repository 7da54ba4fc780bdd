-- ===== src/Frame/Parse.antt =====
-- `parseDatagramFrame` on any frame, well formed or not.
use openethercat.Base.{ℕ, ◌+◌, ◌*◌, ◌%◌, ◌≤◌, ◌≡◌, List, ◌++◌, some, arith, length, length-append}
use openethercat.Base.Bytes.{
  byte_at, slice, read_le16, byte_at-over, byte_at-append, slice-over, slice-append, length-slice,
}
use openethercat.Frame.{DatagramResponse, parse_datagram_frame}

-- Parsing reads nothing outside the frame: the result is the same whatever a read past the end of
-- the vector would give, for every frame, however short or corrupt, and every expectation.
parse_datagram_frame-over :
    (f g : ℕ → ℕ) (frame : List ℕ) (command index bytes : ℕ)
    → parse_datagram_frame f frame command index bytes
      ≡ parse_datagram_frame g frame command index bytes
unfolding parse_datagram_frame
parse_datagram_frame-over f g frame command index bytes = ground (
  arith,
  byte_at-over f g frame 12,
  byte_at-over f g frame 13,
  byte_at-over f g frame 14,
  byte_at-over f g frame 15,
  byte_at-over f g frame 16,
  byte_at-over f g frame 17,
  byte_at-over f g frame 22,
  byte_at-over f g frame 23,
  slice-over f g frame 26 (read_le16 f frame 22 % 2048),
  byte_at-over f g frame (26 + read_le16 f frame 22 % 2048),
  byte_at-over f g frame (26 + read_le16 f frame 22 % 2048 + 1),
)

-- A frame that parses is at least 28 bytes longer than the expected payload, carries EtherCAT's
-- ether type, command and index as expected and the expected length; the response holds the bytes
-- from offset 26 on, as many as expected, and the little-endian word behind them.
pub parse_datagram_frame_sound :
    (over : ℕ → ℕ) (frame : List ℕ) (command index bytes : ℕ) (d : DatagramResponse)
    → parse_datagram_frame over frame command index bytes ≡ some d
    → (bytes + 28 ≤ length frame)
      × (byte_at over frame 12 * 256 + byte_at over frame 13 ≡ 0x88a4)
      × (byte_at over frame 16 ≡ command)
      × (byte_at over frame 17 ≡ index)
      × (read_le16 over frame 22 % 2048 ≡ bytes)
      × (d.command ≡ command)
      × (d.datagram_index ≡ index)
      × (d.payload ≡ slice over frame 26 bytes)
      × (length d.payload ≡ bytes)
      × (d.working_counter ≡ read_le16 over frame (26 + bytes))
unfolding parse_datagram_frame
parse_datagram_frame_sound over frame command index bytes d h =
    ground (arith, length-slice over frame 26 bytes)

-- Bytes behind the datagram, such as the padding of a short Ethernet frame, change nothing.
parse_datagram_frame-append :
    (over : ℕ → ℕ) (frame padding : List ℕ) (command index bytes : ℕ) (d : DatagramResponse)
    → parse_datagram_frame over frame command index bytes ≡ some d
    → parse_datagram_frame over (frame ++ padding) command index bytes ≡ some d
unfolding parse_datagram_frame
parse_datagram_frame-append over frame padding command index bytes d h = ground (
  arith,
  length-append frame padding,
  byte_at-append over frame padding 12,
  byte_at-append over frame padding 13,
  byte_at-append over frame padding 14,
  byte_at-append over frame padding 15,
  byte_at-append over frame padding 16,
  byte_at-append over frame padding 17,
  byte_at-append over frame padding 22,
  byte_at-append over frame padding 23,
  slice-append over frame padding 26 bytes,
  byte_at-append over frame padding (26 + bytes),
  byte_at-append over frame padding (26 + bytes + 1),
)
