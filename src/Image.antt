-- ===== src/Image.antt =====
-- include/openethercat/core/process_image.hpp: the input and output bytes, read and written by bit.
-- The exceptions of `checkBit` are values. A read behind its checks is inside the vector.
pub mod Access
mod Runs
use openethercat.Base.{ℕ, Bool, List, if◌then◌else◌, leb, length, set, replicate, String}
use openethercat.Base.Bits.{test_bit, write_bit}
use openethercat.Base.Bytes.{byte_at}
use openethercat.Base.Checked.{Checked, returns, throws, bind}

pub record ProcessImage : Type 0 where
  pub input : List ℕ
  pub output : List ℕ

unfoldable pub zeroed_image : ℕ → ℕ → ProcessImage
zeroed_image input_bytes output_bytes = record {
  input = replicate input_bytes 0;
  output = replicate output_bytes 0;
}

-- `bytes[i]`; the calls below check the index first.
abbrev pub nth : List ℕ → ℕ → ℕ
unfolding byte_at
nth = byte_at (λ i. 0)

pub check_bit : ℕ → ℕ → List ℕ → Checked (Unit {0})
check_bit byte_offset bit_index bytes =
    if leb 8 bit_index
    then throws "bitIndex must be < 8"
    else if leb (length bytes) byte_offset
    then throws "byteOffset out of range"
    else returns tt

unfoldable pub read_input_bit : ProcessImage → ℕ → ℕ → Checked Bool
unfolding check_bit byte_at
read_input_bit image byte_offset bit_index =
    bind (check_bit byte_offset bit_index image.input)
      (λ _. returns (test_bit (nth image.input byte_offset) bit_index))

unfoldable pub read_output_bit : ProcessImage → ℕ → ℕ → Checked Bool
unfolding check_bit byte_at
read_output_bit image byte_offset bit_index =
    bind (check_bit byte_offset bit_index image.output)
      (λ _. returns (test_bit (nth image.output byte_offset) bit_index))

unfoldable pub write_output_bit : ProcessImage → ℕ → ℕ → Bool → Checked ProcessImage
unfolding check_bit byte_at
write_output_bit image byte_offset bit_index value =
    bind (check_bit byte_offset bit_index image.output) (λ _. returns (record image {
      output =
          set image.output byte_offset (write_bit (nth image.output byte_offset) bit_index value);
    }))
