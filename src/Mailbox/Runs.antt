-- ===== src/Mailbox/Runs.antt =====
-- The theorems about mailbox frames at concrete inputs.
use openethercat.Base.{ℕ, ◌≤◌, ◌≡◌, refl, List, [], ◌∷◌, ◌++◌, some, arith, length}
use openethercat.Base.Bytes.{byte_at, slice, read_le16}
use openethercat.Mailbox.{
  EscMailboxFrame, EmergencyMessage, encode_esc_mailbox, decode_esc_mailbox, parse_emergency,
}
use openethercat.Mailbox.Codec.{
  decode-encode_esc_mailbox, decode_esc_mailbox_sound, parse_emergency_iff,
}

abbrev past_end : ℕ → ℕ
past_end i = 0xdd

abbrev coe_frame : EscMailboxFrame
coe_frame = record { channel = 0; priority = 0; type = 3; counter = 5; payload = 2 ∷ 0 ∷ [] }

coe_decoded :
    decode_esc_mailbox past_end (2 ∷ 0 ∷ 0 ∷ 0 ∷ 0 ∷ 0x35 ∷ 2 ∷ 0 ∷ 0 ∷ []) ≡ some coe_frame
unfolding decode_esc_mailbox byte_at slice
coe_decoded = refl

decode-encode_esc_mailbox_example :
    decode_esc_mailbox past_end (encode_esc_mailbox coe_frame ++ (0 ∷ 0 ∷ [])) ≡ some coe_frame
decode-encode_esc_mailbox_example =
    decode-encode_esc_mailbox past_end coe_frame (0 ∷ 0 ∷ []) (omega arith)

decode_esc_mailbox_sound_example : 1 ≤ length coe_frame.payload
decode_esc_mailbox_sound_example =
    (decode_esc_mailbox_sound past_end (2 ∷ 0 ∷ 0 ∷ 0 ∷ 0 ∷ 0x35 ∷ 2 ∷ 0 ∷ 0 ∷ []) coe_frame
      coe_decoded).0

abbrev emergency_bytes : List ℕ
emergency_bytes = 1 ∷ 0 ∷ 0x34 ∷ 0x12 ∷ 5 ∷ 1 ∷ 2 ∷ 3 ∷ 4 ∷ 5 ∷ []

abbrev emergency : EmergencyMessage
emergency = record {
  error_code = 0x1234;
  error_register = 5;
  manufacturer_data = 1 ∷ 2 ∷ 3 ∷ 4 ∷ 5 ∷ [];
  slave_position = 2;
}

emergency_parsed : parse_emergency past_end emergency_bytes 2 ≡ some emergency
unfolding parse_emergency byte_at slice
emergency_parsed = refl

parse_emergency_iff_example :
    (10 ≤ length emergency_bytes) × (read_le16 past_end emergency_bytes 0 ≡ 1)
parse_emergency_iff_example =
    let fields =
      (parse_emergency_iff past_end past_end emergency_bytes 2 emergency).1.0 emergency_parsed in
    (fields.0, fields.1)
