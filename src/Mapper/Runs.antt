-- ===== src/Mapper/Runs.antt =====
-- The theorem about the mapper at a concrete input.
use openethercat.Base.{◌≡◌, refl, true, [], ◌∷◌}
use openethercat.Base.Bits.{test_bit}
use openethercat.Config.{SignalBinding, input}
use openethercat.Image.{ProcessImage}
use openethercat.Mapper.{IoMapper, dispatch_input_changes}
use openethercat.Mapper.Changes.{all_due, dispatch_input_changes_once}

abbrev door : SignalBinding
door = record {
  logical_name = "door";
  direction = input;
  slave_name = "Inputs";
  byte_offset = 0;
  bit_offset = 1;
}

abbrev watching : IoMapper
watching = record { bindings = ("door", door) ∷ []; callbacks = ("door", 9) ∷ []; previous = [] }

abbrev door_open : ProcessImage
door_open = record { input = 2 ∷ []; output = [] }

called : (dispatch_input_changes watching door_open).1.calls ≡ (9, true) ∷ []
unfolding dispatch_input_changes test_bit
called = refl

dispatch_input_changes_once_example :
    let first = dispatch_input_changes watching door_open in
    let again = dispatch_input_changes first.0 door_open in
    (first.1.calls ≡ all_due watching door_open [] watching.callbacks)
    × (again.1.calls ≡ [])
    × (again.0.previous ≡ first.0.previous)
unfolding dispatch_input_changes test_bit
dispatch_input_changes_once_example = dispatch_input_changes_once watching door_open (tt, tt) refl
