-- ===== src/Mailbox.antt =====
-- The ESC mailbox frame and the CoE emergency of src/transport/coe_mailbox_protocol.cpp, with the
-- types of include/openethercat/transport/coe_mailbox_protocol.hpp and of
-- include/openethercat/master/coe_mailbox.hpp. An output parameter that is written only on success
-- is the value of an `Option`.
pub mod Codec
mod Runs
use openethercat.Base.{
  ℕ, ◌+◌, ◌/◌, ◌*◌, ◌%◌, ◌||◌, not, List, [], ◌∷◌, ◌++◌, Option, none, some, if◌then◌else◌, ltb,
  ◌==◌, length,
}
use openethercat.Base.Bytes.{byte_at, slice, put_le16, read_le16}

pub record EscMailboxFrame : Type 0 where
  pub channel : ℕ
  pub priority : ℕ
  pub type : ℕ
  pub counter : ℕ
  pub payload : List ℕ

pub record EmergencyMessage : Type 0 where
  pub error_code : ℕ
  pub error_register : ℕ
  pub manufacturer_data : List ℕ
  pub slave_position : ℕ

abbrev pub mailbox_type_coe : ℕ
mailbox_type_coe = 0x03

abbrev coe_service_emergency : ℕ
coe_service_emergency = 0x0001

unfoldable pub encode_esc_mailbox : EscMailboxFrame → List ℕ
unfolding put_le16
encode_esc_mailbox f =
    (put_le16 (length f.payload % 65536)
      ++ put_le16 0
      ++ ((f.channel % 16 * 16 + f.priority % 4) ∷ (f.type % 16 * 16 + f.counter % 8) ∷ []))
    ++ f.payload

unfoldable pub decode_esc_mailbox : (ℕ → ℕ) → List ℕ → Option EscMailboxFrame
unfolding read_le16
decode_esc_mailbox over bytes =
    if ltb (length bytes) 6
    then none
    else if read_le16 over bytes 0 == 0 || ltb (length bytes) (read_le16 over bytes 0 + 6)
    then none
    else some (record {
      channel = byte_at over bytes 4 / 16 % 16;
      priority = byte_at over bytes 4 % 4;
      type = byte_at over bytes 5 / 16 % 16;
      counter = byte_at over bytes 5 % 8;
      payload = slice over bytes 6 (read_le16 over bytes 0);
    })

unfoldable pub parse_emergency : (ℕ → ℕ) → List ℕ → ℕ → Option EmergencyMessage
unfolding read_le16
parse_emergency over payload slave_position =
    if ltb (length payload) 10
    then none
    else if not (read_le16 over payload 0 == coe_service_emergency)
    then none
    else some (record {
      error_code = read_le16 over payload 2;
      error_register = byte_at over payload 4;
      manufacturer_data = slice over payload 5 5;
      slave_position = slave_position;
    })
