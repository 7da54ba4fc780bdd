-- ===== src/Mailbox/Codec.antt =====
-- The mailbox frame written and read back, and what reading makes of any bytes.
use openethercat.Base.{
  ℕ, ◌+◌, ◌*◌, ◌%◌, ◌<◌, ◌≤◌, ◌≡◌, ◌↔◌, ◌∙◌, sym, refl, List, [], ◌∷◌, ◌++◌, none, some, arith,
  ◌==◌, if◌then◌else◌, length, length-append,
}
use openethercat.Base.Bytes.{
  byte_at, slice, put_le16, read_le16, byte_at-over, slice-over, slice_middle, length-slice,
}
use openethercat.Mailbox.{
  EscMailboxFrame, EmergencyMessage, encode_esc_mailbox, decode_esc_mailbox, parse_emergency,
}

-- Decoding reads nothing outside the bytes received, whatever they are.
decode_esc_mailbox-over :
    (f g : ℕ → ℕ) (bytes : List ℕ) → decode_esc_mailbox f bytes ≡ decode_esc_mailbox g bytes
unfolding decode_esc_mailbox
decode_esc_mailbox-over f g bytes = ground (
  arith,
  byte_at-over f g bytes 0,
  byte_at-over f g bytes 1,
  byte_at-over f g bytes 4,
  byte_at-over f g bytes 5,
  slice-over f g bytes 6 (read_le16 f bytes 0),
)

module _ (over : ℕ → ℕ) (f : EscMailboxFrame) (padding : List ℕ) where
  header : List ℕ
  unfolding put_le16
  header =
      put_le16 (length f.payload % 65536)
      ++ put_le16 0
      ++ ((f.channel % 16 * 16 + f.priority % 4) ∷ (f.type % 16 * 16 + f.counter % 8) ∷ [])

  payload_of_encode : slice over (encode_esc_mailbox f ++ padding) 6 (length f.payload) ≡ f.payload
  unfolding encode_esc_mailbox header
  payload_of_encode = slice_middle over header f.payload padding 6 (length f.payload) refl refl

  length_of_encode :
      length (encode_esc_mailbox f ++ padding) ≡ 6 + length f.payload + length padding
  unfolding encode_esc_mailbox
  length_of_encode = omega (arith, length-append f.payload padding)

  fields_of_encode :
      (read_le16 over (encode_esc_mailbox f ++ padding) 0 ≡ length f.payload % 65536)
      × (byte_at over (encode_esc_mailbox f ++ padding) 4 ≡ f.channel % 16 * 16 + f.priority % 4)
      × (byte_at over (encode_esc_mailbox f ++ padding) 5 ≡ f.type % 16 * 16 + f.counter % 8)
  unfolding encode_esc_mailbox read_le16 byte_at
  fields_of_encode = (omega arith, refl, refl)

-- A frame whose payload is shorter than 65536 bytes, written and padded as a write mailbox is, is
-- read back with its payload and its fields cut to 4, 2, 4 and 3 bits; with an empty payload it is
-- refused.
pub decode-encode_esc_mailbox :
    (over : ℕ → ℕ) (f : EscMailboxFrame) (padding : List ℕ)
    → length f.payload < 65536
    → decode_esc_mailbox over (encode_esc_mailbox f ++ padding) ≡ (
        if length f.payload == 0
        then none
        else some (record {
          channel = f.channel % 16;
          priority = f.priority % 4;
          type = f.type % 16;
          counter = f.counter % 8;
          payload = f.payload;
        }))
unfolding decode_esc_mailbox
decode-encode_esc_mailbox over f padding short = ground (
  arith,
  payload_of_encode over f padding,
  length_of_encode over f padding,
  fields_of_encode over f padding,
)

-- Whatever the bytes, a decoded frame has a payload of at least one byte that fits behind the
-- header, and fields within their 4, 2, 4 and 3 bits.
pub decode_esc_mailbox_sound :
    (over : ℕ → ℕ) (bytes : List ℕ) (f : EscMailboxFrame)
    → decode_esc_mailbox over bytes ≡ some f
    → (1 ≤ length f.payload)
      × (length f.payload + 6 ≤ length bytes)
      × (f.channel < 16)
      × (f.priority < 4)
      × (f.type < 16)
      × (f.counter < 8)
unfolding decode_esc_mailbox
decode_esc_mailbox_sound over bytes f h =
    ground (arith, length-slice over bytes 6 (read_le16 over bytes 0))

-- An emergency is taken out of a payload exactly if that has ten bytes or more and starts with the
-- emergency service; its error code, register and five bytes of manufacturer data are those behind the
-- service, and its position is the one given. Nothing outside the payload is read: what stands behind
-- its end makes no difference.
pub parse_emergency_iff :
    (over other : ℕ → ℕ) (payload : List ℕ) (position : ℕ) (m : EmergencyMessage)
    → (parse_emergency over payload position ≡ parse_emergency other payload position)
      × ((parse_emergency over payload position ≡ some m) ↔ (
          (10 ≤ length payload)
          × (read_le16 over payload 0 ≡ 1)
          × (m.error_code ≡ read_le16 over payload 2)
          × (m.error_register ≡ byte_at over payload 4)
          × (m.manufacturer_data ≡ slice over payload 5 5)
          × (m.slave_position ≡ position)))
unfolding parse_emergency
parse_emergency_iff over other payload position m = (
  ground (
    arith,
    byte_at-over over other payload 0,
    byte_at-over over other payload 1,
    byte_at-over over other payload 2,
    byte_at-over over other payload 3,
    byte_at-over over other payload 4,
    slice-over over other payload 5 5,
  ),
  (
    λ h. ground arith,
    λ (long, service, code, register, bytes, at).
        let found : parse_emergency over payload position
            ≡ some (record {
              error_code = read_le16 over payload 2;
              error_register = byte_at over payload 4;
              manufacturer_data = slice over payload 5 5;
              slave_position = position;
            }) =
          ground arith in
        found ∙ (λ i. some (record {
          error_code = sym code i;
          error_register = sym register i;
          manufacturer_data = sym bytes i;
          slave_position = sym at i;
        })),
  ),
)
