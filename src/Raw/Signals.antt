-- ===== src/Raw/Signals.antt =====
-- What configureProcessImage of src/transport/linux_raw_socket_transport_process_image.cpp takes from the
-- configuration: the slaves of each direction, their signals, and the defaults for a slave whose sync
-- manager is empty.
use openethercat.Base.{
  ℕ, ◌+◌, ◌%◌, Bool, true, false, not, List, [], ◌∷◌, ◌++◌, none, some, String, if◌then◌else◌, ltb,
  ◌==◌,
}
use openethercat.Base.Maps.{find, put, string_key}
use openethercat.Config.{SignalBinding, SignalDirection, input, output, SlaveIdentity}
use openethercat.Transport.{PdoMappingEntry}

-- What differs between outputs (SM2) and inputs (SM3).
abbrev pub sm_of : SignalDirection → ℕ
sm_of output = 2
sm_of input = 3

abbrev pub assign_of : SignalDirection → ℕ
assign_of output = 0x1600
assign_of input = 0x1a00

abbrev object_of : SignalDirection → ℕ
object_of output = 0x7000
object_of input = 0x6000

abbrev pub control_of : SignalDirection → ℕ
control_of output = 0x24
control_of input = 0x20

abbrev pub is_output : SignalDirection → Bool
is_output output = true
is_output input = false

abbrev same_direction : SignalDirection → SignalDirection → Bool
same_direction output d = is_output d
same_direction input d = not (is_output d)

unfoldable pub slave_by_name : List SlaveIdentity → List (String × ℕ) → List (String × ℕ)
unfolding put
slave_by_name [] names = names
slave_by_name (s ∷ slaves) names = slave_by_name slaves (put s.name s.position names)

-- The signals of one direction with the positions of their slaves, those of unknown slaves left out.
unfoldable pub placed :
    List (String × ℕ) → SignalDirection → List SignalBinding → List (ℕ × SignalBinding)
unfolding find
placed names d [] = []
placed names d (s ∷ signals) =
    let rest = placed names d signals in
    elim (find s.slave_name names) [
      | none ↦ rest
      | some position ↦ if same_direction d s.direction then (position, s) ∷ rest else rest
    ]

abbrev pub member : ℕ → List ℕ → Bool
member p [] = false
member p (q ∷ qs) = if p == q then true else member p qs

-- The positions, each once.
unfoldable pub positions : List (ℕ × SignalBinding) → List ℕ → List ℕ
positions [] seen = seen
positions ((p, s) ∷ rest) seen = positions rest (if member p seen then seen else seen ++ (p ∷ []))

unfoldable pub signals_at : ℕ → List (ℕ × SignalBinding) → List SignalBinding
signals_at p [] = []
signals_at p ((q, s) ∷ rest) =
    let others = signals_at p rest in if p == q then s ∷ others else others

-- `std::map`: by sub index, each once.
unfoldable insert_entry : PdoMappingEntry → List PdoMappingEntry → List PdoMappingEntry
insert_entry e [] = e ∷ []
insert_entry e (f ∷ rest) =
    let later = insert_entry e rest in
    if e.sub_index == f.sub_index
    then e ∷ rest
    else if ltb e.sub_index f.sub_index
    then e ∷ f ∷ rest
    else f ∷ later

unfoldable pub build_default_entries :
    SignalDirection → List SignalBinding → List PdoMappingEntry → List PdoMappingEntry
unfolding insert_entry
build_default_entries d [] entries = entries
build_default_entries d (s ∷ signals) entries = build_default_entries d signals (
    insert_entry
      (record { index = object_of d; sub_index = (s.bit_offset + 1) % 256; bit_length = 1 })
      entries)

abbrev max_byte : ℕ → List SignalBinding → ℕ
max_byte m [] = m
max_byte m (s ∷ signals) = max_byte (if ltb m s.byte_offset then s.byte_offset else m) signals

-- At least one byte, for a list that is not empty.
unfoldable pub estimated_length : List SignalBinding → ℕ
estimated_length signals =
    let bytes = (max_byte 0 signals + 1) % 65536 in if ltb bytes 1 then 1 else bytes

abbrev pub none_of : List ℕ → Bool
none_of [] = true
none_of (p ∷ ps) = false
