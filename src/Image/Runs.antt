-- ===== src/Image/Runs.antt =====
-- The theorems about the process image at concrete inputs.
use openethercat.Base.{◌≡◌, refl, true, [], ◌∷◌, arith}
use openethercat.Base.Bits.{write_bit}
use openethercat.Base.Checked.{returns, throws}
use openethercat.Image.{ProcessImage, write_output_bit, read_output_bit}
use openethercat.Image.Access.{read-write_output_bit}

abbrev two_bytes : ProcessImage
two_bytes = record { input = 0 ∷ []; output = 0x81 ∷ 0 ∷ [] }

abbrev three_set : ProcessImage
three_set = record { input = 0 ∷ []; output = 0x89 ∷ 0 ∷ [] }

written : write_output_bit two_bytes 0 3 true ≡ returns three_set
unfolding write_output_bit write_bit
written = refl

outside : write_output_bit two_bytes 2 3 true ≡ throws "byteOffset out of range"
unfolding write_output_bit write_bit
outside = refl

read-write_output_bit_example : read_output_bit three_set 0 3 ≡ returns true
read-write_output_bit_example =
    (read-write_output_bit two_bytes three_set 0 3 true (omega arith) written).0 0 3
