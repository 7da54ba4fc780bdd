-- ===== src/Mapper.antt =====
-- src/mapping/io_mapper.cpp and include/openethercat/mapping/io_mapper.hpp. A callback is known by a
-- number, and its calls are recorded in order; what it does to the outputs is in Master/Cycle. The
-- tables are walked in the order of their lists.
pub mod Dispatch
pub mod Changes
pub mod Served
mod Runs
use openethercat.Base.{
  ℕ, Bool, true, false, not, List, [], ◌∷◌, ◌++◌, Option, none, some, String, if◌then◌else◌,
  bool_eq,
}
use openethercat.Base.Checked.{Checked, returns, throws, bind}
use openethercat.Base.Maps.{find, put, string_key}
use openethercat.Config.{SignalBinding, SignalDirection, input, output}
use openethercat.Image.{ProcessImage, read_input_bit, write_output_bit}

pub record IoMapper : Type 0 where
  pub bindings : List (String × SignalBinding)
  pub callbacks : List (String × ℕ)
  pub previous : List (String × Bool)

unfoldable pub empty_mapper : IoMapper
empty_mapper = record { bindings = []; callbacks = []; previous = [] }

abbrev pub is_output : SignalDirection → Bool
is_output input = false
is_output output = true

-- `emplace`: a name that is bound keeps its binding.
unfoldable pub bind_signal : IoMapper → SignalBinding → IoMapper × Bool
unfolding find
bind_signal m s = elim (find s.logical_name m.bindings) [
  | none ↦ (record m { bindings = m.bindings ++ ((s.logical_name, s) ∷ []) }, true)
  | some old ↦ (m, false)
]

-- The image is given back with the result, changed or not.
unfoldable pub set_output : IoMapper → ProcessImage → String → Bool → Checked (ProcessImage × Bool)
unfolding find write_output_bit
set_output m image name value = elim (find name m.bindings) [
  | none ↦ returns (image, false)
  | some s ↦
      if not (is_output s.direction)
      then returns (image, false)
      else bind (write_output_bit image s.byte_offset s.bit_offset value)
          (λ written. returns (written, true))
]

-- The value is there exactly if the call returns true.
unfoldable pub get_input : IoMapper → ProcessImage → String → Checked (Option Bool)
unfolding find read_input_bit
get_input m image name = elim (find name m.bindings) [
  | none ↦ returns none
  | some s ↦
      if is_output s.direction
      then returns none
      else bind (read_input_bit image s.byte_offset s.bit_offset) (λ value. returns (some value))
]

unfoldable pub register_input_callback : IoMapper → String → ℕ → IoMapper × Bool
unfolding find put
register_input_callback m name callback = elim (find name m.bindings) [
  | none ↦ (m, false)
  | some s ↦
      if is_output s.direction
      then (m, false)
      else (record m { callbacks = put name callback m.callbacks }, true)
]

-- What the loop has done so far: the states remembered, the calls made, and the exception that
-- ended it, if one did.
pub record Dispatched : Type 0 where
  pub previous : List (String × Bool)
  pub calls : List (ℕ × Bool)
  pub thrown : Option String

abbrev pub differs : Option Bool → Bool → Bool
differs none current = true
differs (some before) current = not (bool_eq before current)

-- The bit that a callback's name stands for; none if it is skipped.
unfoldable pub current_input :
    List (String × SignalBinding) → ProcessImage → String → Option (Checked Bool)
unfolding find read_input_bit
current_input bindings image name = elim (find name bindings) [
  | none ↦ none
  | some s ↦
      if is_output s.direction then none else some (read_input_bit image s.byte_offset s.bit_offset)
]

unfoldable pub dispatch_loop :
    List (String × SignalBinding)
    → ProcessImage
    → List (String × ℕ)
    → List (String × Bool)
    → Dispatched
unfolding find put current_input
dispatch_loop bindings image [] previous = record { previous = previous; calls = []; thrown = none }
dispatch_loop bindings image ((name, callback) ∷ rest) previous =
    elim (current_input bindings image name) [
      | none ↦ dispatch_loop bindings image rest previous
      | some (throws message) ↦ record { previous = previous; calls = []; thrown = some message }
      | some (returns current) ↦ elim (differs (find name previous) current) [
        | false ↦ dispatch_loop bindings image rest previous
        | true ↦
            let later = dispatch_loop bindings image rest (put name current previous) in
            record later { calls = (callback, current) ∷ later.calls }
      ]
    ]

unfoldable pub dispatch_input_changes : IoMapper → ProcessImage → IoMapper × Dispatched
unfolding dispatch_loop
dispatch_input_changes m image =
    let done = dispatch_loop m.bindings image m.callbacks m.previous in
    (record m { previous = done.previous }, done)
