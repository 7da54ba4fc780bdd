-- ===== src/Base/Bits.antt =====
-- Single bits of a byte: `(b >> i) & 1`, `b |= 1 << i` and `b &= ~(1 << i)`. The laws are tables over
-- all bytes and bit numbers, checked by evaluation.
use Prim.Native.Nat.{ℕ, zero, suc, ◌-◌, ◌/◌, ◌%◌, ◌^◌, ◌<◌, bit_and, bit_or}
use mathlib.Core.Path.{◌≡◌, refl}
use mathlib.Core.Bool.{Bool, true, false, ◌&&◌, not}
use native.Mathlib.Omega.{arith}
use openethercat.Base.Tests.{ltb, ◌==◌, bool_eq, if◌then◌else◌}

unfoldable pub test_bit : ℕ → ℕ → Bool
test_bit b i = not (b / 2 ^ i % 2 == 0)

unfoldable pub write_bit : ℕ → ℕ → Bool → ℕ
write_bit b i v = if v then bit_or b (2 ^ i) else bit_and b (255 - 2 ^ i)

-- Every bit number or byte under a bound passes a test.
every : (ℕ → Bool) → ℕ → Bool
every passes zero = true
every passes (suc k) = if passes k then every passes k else false

passes_of_every :
    (passes : ℕ → Bool) (bound i : ℕ) → every passes bound ≡ true → i < bound → passes i ≡ true
unfolding every
passes_of_every passes zero i holds below = elim below [ ]
passes_of_every passes (suc k) i holds below = ground (arith, passes_of_every passes k i)

abbrev law : Bool → ℕ → ℕ → ℕ → Bool
law v i j b =
    bool_eq (test_bit (write_bit b i v) j) (if i == j then v else test_bit b j)
    && ltb (write_bit b i v) 256

table : (v : Bool) → every (λ i. every (λ j. every (law v i j) 256) 8) 8 ≡ true
unfolding every test_bit write_bit
table true = refl
table false = refl

entry : (v : Bool) (i j b : ℕ) → i < 8 → j < 8 → b < 256 → law v i j b ≡ true
entry v i j b hi hj hb =
    passes_of_every (law v i j) 256 b
      (passes_of_every (λ j. every (law v i j) 256) 8 j
        (passes_of_every (λ i. every (λ j. every (law v i j) 256) 8) 8 i (table v) hi) hj)
      hb

-- A written bit reads back, and the others are as they were.
pub test_bit-write_bit :
    (v : Bool) (i j b : ℕ)
    → i < 8
    → j < 8
    → b < 256
    → test_bit (write_bit b i v) j ≡ (if i == j then v else test_bit b j)
test_bit-write_bit v i j b hi hj hb = ground (arith, entry v i j b hi hj hb)

pub write_bit-lt : (v : Bool) (i b : ℕ) → i < 8 → b < 256 → write_bit b i v < 256
write_bit-lt v i b hi hb = ground (arith, entry v i i b hi hi hb)
