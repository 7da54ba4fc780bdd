-- ===== src/SlaveState.antt =====
-- include/openethercat/core/slave_state.hpp, and the AL state codes of
-- src/transport/linux_raw_socket_transport_state_dc.cpp.
use openethercat.Base.{
  ℕ, ◌%◌, ◌≡◌, ◌↔◌, ◌+◌, true, refl, Bool, Option, none, some, String, if◌then◌else◌, ◌==◌, arith,
}

pub data SlaveState : Type 0 where
  init pre_op bootstrap safe_op op : SlaveState

-- The enumerators' values, as they are sent.
unfoldable pub al_code : SlaveState → ℕ
al_code init = 0x01
al_code pre_op = 0x02
al_code bootstrap = 0x03
al_code safe_op = 0x04
al_code op = 0x08

unfoldable pub state_name : SlaveState → String
state_name init = "INIT"
state_name pre_op = "PRE-OP"
state_name bootstrap = "BOOTSTRAP"
state_name safe_op = "SAFE-OP"
state_name op = "OP"

-- `state == target`.
unfoldable pub same_state : SlaveState → SlaveState → Bool
unfolding al_code
same_state a b = al_code a == al_code b

-- The low four bits are the state; the fifth is the slave's error flag.
unfoldable pub decode_al_state : ℕ → Option SlaveState
decode_al_state raw =
    if raw % 16 == 1
    then some init
    else if raw % 16 == 2
    then some pre_op
    else if raw % 16 == 3
    then some bootstrap
    else if raw % 16 == 4
    then some safe_op
    else if raw % 16 == 8
    then some op
    else none

pub same_state_iff : (a b : SlaveState) → (same_state a b ≡ true) ↔ (a ≡ b)
unfolding same_state al_code
same_state_iff a b = ground arith

-- Every state is decoded from the code it is sent as, with or without the error flag, and two
-- states are never sent as one code.
decode-al_code :
    (s : SlaveState)
    → (decode_al_state (al_code s) ≡ some s) × (decode_al_state (al_code s + 16) ≡ some s)
unfolding decode_al_state al_code
decode-al_code init = (refl, refl)
decode-al_code pre_op = (refl, refl)
decode-al_code bootstrap = (refl, refl)
decode-al_code safe_op = (refl, refl)
decode-al_code op = (refl, refl)
