-- ===== src/Config/Runs.antt =====
-- The validator at concrete configurations.
use openethercat.Base.{◌≡◌, refl, true, false, [], ◌∷◌}
use openethercat.Base.Maps.{find}
use openethercat.Base.Text.{to_string}
use openethercat.Config.{NetworkConfiguration, SignalBinding, SignalDirection, has_errors, validate}
use openethercat.Config.Validity.{IsValid, validate_iff}

abbrev start_button : SignalBinding
start_button = record {
  logical_name = "StartButton";
  direction = SignalDirection.input;
  slave_name = "EL1004";
  byte_offset = 0;
  bit_offset = 3;
}

abbrev one_button : NetworkConfiguration
one_button = record { slaves = []; signals = start_button ∷ []; input_bytes = 1; output_bytes = 0 }

twice_refused :
    has_errors (validate (record one_button { signals = start_button ∷ start_button ∷ [] })) ≡ true
unfolding has_errors validate to_string find
twice_refused = refl

one_button_accepted : has_errors (validate one_button) ≡ false
unfolding has_errors validate find
one_button_accepted = refl

validate_iff_example : IsValid one_button
validate_iff_example = (validate_iff one_button).0 one_button_accepted
