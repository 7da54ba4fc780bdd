-- ===== src/Mock/Inputs.antt =====
-- What a test does to the simulated network: inputs set, outputs looked at, faults injected.
use openethercat.Base.{
  ℕ, ◌+◌, ◌-◌, Bool, ◌||◌, List, [], ◌∷◌, ◌++◌, if◌then◌else◌, ltb, leb, length, set, take, drop,
}
use openethercat.Base.Bits.{test_bit, write_bit}
use openethercat.Base.Checked.{Checked, returns, throws, bind}
use openethercat.Base.Maps.{put, nat_key}
use openethercat.Image.{nth}
use openethercat.Mailbox.{EmergencyMessage}
use openethercat.Topology.{SlaveInfo}
use openethercat.Mock.{MockTransport}

-- `getBit` and `setBit`.
unfoldable get_bit : List ℕ → ℕ → ℕ → Checked Bool
unfolding test_bit
get_bit bytes byte_offset bit_offset =
    if leb 8 bit_offset || leb (length bytes) byte_offset
    then throws "bit access out of range"
    else returns (test_bit (nth bytes byte_offset) bit_offset)

unfoldable set_bit : List ℕ → ℕ → ℕ → Bool → Checked (List ℕ)
unfolding write_bit
set_bit bytes byte_offset bit_offset value =
    if leb 8 bit_offset || leb (length bytes) byte_offset
    then throws "bit access out of range"
    else returns (set bytes byte_offset (write_bit (nth bytes byte_offset) bit_offset value))

unfoldable set_input_bit : MockTransport → ℕ → ℕ → Bool → Checked MockTransport
unfolding set_bit
set_input_bit m byte_offset bit_offset value =
    bind (set_bit m.inputs byte_offset bit_offset value)
      (λ inputs. returns (record m { inputs = inputs }))

unfoldable set_input_byte : MockTransport → ℕ → ℕ → Checked MockTransport
set_input_byte m byte_offset value =
    if leb (length m.inputs) byte_offset
    then throws "byte access out of range"
    else returns (record m { inputs = set m.inputs byte_offset value })

-- `std::copy` into the vector.
unfoldable overwrite : List ℕ → ℕ → List ℕ → List ℕ
overwrite bytes offset data_bytes =
    take offset bytes ++ (data_bytes ++ drop (offset + length data_bytes) bytes)

unfoldable set_input_bytes : MockTransport → ℕ → List ℕ → Checked MockTransport
unfolding overwrite
set_input_bytes m byte_offset data_bytes =
    if ltb (length m.inputs) byte_offset
    then throws "byte offset out of range"
    else if ltb (length m.inputs - byte_offset) (length data_bytes)
    then throws "byte range out of range"
    else returns (record m { inputs = overwrite m.inputs byte_offset data_bytes })

unfoldable get_last_output_bit : MockTransport → ℕ → ℕ → Checked Bool
unfolding get_bit
get_last_output_bit m = get_bit m.last_outputs

unfoldable set_slave_al_status_code : MockTransport → ℕ → ℕ → MockTransport
unfolding put
set_slave_al_status_code m position code = record m {
  per_slave_al_status_code = put position code m.per_slave_al_status_code;
}

unfoldable pub inject_exchange_failures : MockTransport → ℕ → MockTransport
inject_exchange_failures m count = record m { remaining_exchange_failures = count }

unfoldable pub enqueue_emergency : MockTransport → EmergencyMessage → MockTransport
enqueue_emergency m emergency = record m { emergencies = m.emergencies ++ (emergency ∷ []) }

unfoldable pub set_redundancy_healthy : MockTransport → Bool → MockTransport
set_redundancy_healthy m healthy = record m { redundancy_healthy = healthy }

unfoldable set_discovered_slaves : MockTransport → List SlaveInfo → MockTransport
set_discovered_slaves m slaves = record m { discovered_slaves = slaves }
