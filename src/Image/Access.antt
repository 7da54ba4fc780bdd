-- ===== src/Image/Access.antt =====
-- Bits of the process image: what a write changes, and which accesses throw.
use openethercat.Base.{
  ℕ, suc, zero, ◌<◌, ◌≡◌, refl, ◌↔◌, Bool, ◌&&◌, List, [], ◌∷◌, arith, ◌==◌, if◌then◌else◌, length,
  set, All, length-set,
}
use openethercat.Base.Bits.{write_bit, test_bit-write_bit, write_bit-lt}
use openethercat.Base.Bytes.{IsByte, byte_at, byte_at-IsByte}
use openethercat.Base.Checked.{returns}
use openethercat.Image.{ProcessImage, nth, check_bit, read_output_bit, write_output_bit}

nth-set :
    (bytes : List ℕ) (i j v : ℕ)
    → i < length bytes
    → nth (set bytes i v) j ≡ (if i == j then v else nth bytes j)
unfolding byte_at
nth-set [] i j v h = elim h [ ]
nth-set (b ∷ bytes) zero zero v h = refl
nth-set (b ∷ bytes) zero (suc j) v h = ground arith
nth-set (b ∷ bytes) (suc i) zero v h = ground arith
nth-set (b ∷ bytes) (suc i) (suc j) v h = ground (arith, nth-set bytes i j v (omega arith))

set-IsByte : (bytes : List ℕ) (i v : ℕ) → All IsByte bytes → v < 256 → All IsByte (set bytes i v)
set-IsByte [] i v h k = tt
set-IsByte (b ∷ bytes) zero v h k = (k, h.1)
set-IsByte (b ∷ bytes) (suc i) v h k = (h.0, set-IsByte bytes i v h.1 k)

-- A bit access throws exactly if the bit number is 8 or more or the byte lies outside the image.
pub check_bit_iff :
    (byte_offset bit_index : ℕ) (bytes : List ℕ)
    → (check_bit byte_offset bit_index bytes ≡ returns tt)
      ↔ ((bit_index < 8) × (byte_offset < length bytes))
unfolding check_bit
check_bit_iff byte_offset bit_index bytes = (λ h. ground arith, λ h. ground arith)

-- A write that returns stores the bit, leaves every other output bit and all inputs as they were,
-- and keeps the image's sizes and the range of its bytes.
pub read-write_output_bit :
    (image after : ProcessImage) (byte_offset bit_index : ℕ) (value : Bool)
    → All IsByte image.output
    → write_output_bit image byte_offset bit_index value ≡ returns after
    → ((o i : ℕ)
        → read_output_bit after o i ≡ (
            if byte_offset == o && bit_index == i
            then returns value
            else read_output_bit image o i))
      × (after.input ≡ image.input)
      × (length after.output ≡ length image.output)
      × All IsByte after.output
unfolding write_output_bit read_output_bit
read-write_output_bit image after byte_offset bit_index value bytes h =
    (bits, ground arith, ground (arith, length-set image.output byte_offset written), kept)
  where
    written : ℕ
    written = write_bit (nth image.output byte_offset) bit_index value

    inside : (bit_index < 8) × (byte_offset < length image.output)
    inside = ground arith

    old_IsByte : IsByte (nth image.output byte_offset)
    old_IsByte = byte_at-IsByte _ image.output byte_offset bytes inside.1

    stored : after.output ≡ set image.output byte_offset written
    stored = ground arith

    bits :
        (o i : ℕ)
        → read_output_bit after o i ≡ (
            if byte_offset == o && bit_index == i then returns value else read_output_bit image o i)
    bits o i = ground (
      arith,
      stored,
      inside,
      length-set image.output byte_offset written,
      nth-set image.output byte_offset o written inside.1,
      test_bit-write_bit value bit_index i (nth image.output byte_offset) inside.0,
      old_IsByte,
    )

    kept : All IsByte after.output
    kept = rw stored (
        set-IsByte image.output byte_offset written bytes
          (write_bit-lt value bit_index (nth image.output byte_offset) inside.0 old_IsByte))
