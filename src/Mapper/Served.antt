-- ===== src/Mapper/Served.antt =====
-- Accesses through the mapper to signals that fit the image.
use native.Mathlib.Nat.{zero-div}
use openethercat.Base.{
  ℕ, zero, suc, ◌^◌, ◌<◌, ◌≡◌, refl, Bool, true, false, ◌&&◌, some, length, replicate, set, ◌==◌,
  if◌then◌else◌, All, arith,
}
use openethercat.Base.Bits.{test_bit, write_bit}
use openethercat.Base.Bytes.{IsByte, byte_at}
use openethercat.Base.Checked.{returns}
use openethercat.Base.Maps.{find, string_key}
use openethercat.Config.{SignalBinding, input, output}
use openethercat.Image.Access.{check_bit_iff, read-write_output_bit}
use openethercat.Image.{ProcessImage, nth, read_input_bit, read_output_bit, write_output_bit}
use openethercat.Mapper.{IoMapper, set_output, get_input}

pub nth-replicate : (n i : ℕ) → nth (replicate n 0) i ≡ 0
unfolding byte_at
nth-replicate zero i = refl
nth-replicate (suc n) zero = refl
nth-replicate (suc n) (suc i) = nth-replicate n i

pub replicate-IsByte : (n : ℕ) → All IsByte (replicate n 0)
replicate-IsByte zero = tt
replicate-IsByte (suc n) = (omega arith, replicate-IsByte n)

pub test_bit-zero : (i : ℕ) → i < 8 → test_bit 0 i ≡ false
unfolding test_bit
test_bit-zero i h = rw (zero-div (2 ^ i)) refl

pub set_served :
    (m : IoMapper) (image : ProcessImage) (s : SignalBinding) (v : Bool)
    → find s.logical_name m.bindings ≡ some s
    → s.direction ≡ output
    → s.bit_offset < 8
    → s.byte_offset < length image.output
    → All IsByte image.output
    → (after : ProcessImage) × (set_output m image s.logical_name v ≡ returns (after, true))
      × ((o i : ℕ)
          → read_output_bit after o i ≡ (
              if s.byte_offset == o && s.bit_offset == i
              then returns v
              else read_output_bit image o i))
unfolding set_output write_output_bit
set_served m image s v e d bit byte bytes =
    let after : ProcessImage = record image {
      output =
          set image.output s.byte_offset
            (write_bit (nth image.output s.byte_offset) s.bit_offset v);
    } in
    let fits = (check_bit_iff s.byte_offset s.bit_offset image.output).1 (bit, byte) in
    (
      after,
      rw (e, set_output, d, fits) refl,
      (read-write_output_bit image after s.byte_offset s.bit_offset v bytes (rw fits refl)).0,
    )

pub get_served :
    (m : IoMapper) (image : ProcessImage) (s : SignalBinding)
    → find s.logical_name m.bindings ≡ some s
    → s.direction ≡ input
    → s.bit_offset < 8
    → s.byte_offset < length image.input
    → get_input m image s.logical_name
      ≡ returns (some (test_bit (nth image.input s.byte_offset) s.bit_offset))
unfolding get_input read_input_bit
get_served m image s e d bit byte =
    rw (e, get_input, d, (check_bit_iff s.byte_offset s.bit_offset image.input).1 (bit, byte)) refl
