-- ===== src/Base/Bytes.antt =====
-- Byte vectors (`std::vector<std::uint8_t>`) as lists of numbers. A read past the end is undefined
-- in C++: the functions here take `over`, the value that such a read gives, so that a result which
-- is the same for every `over` was computed inside the vector.
-- A mask of low bits is `%`, a shift is `/` or `*`, and an `|` of disjoint fields is `+`.
use Prim.Native.Nat.{ℕ, zero, suc, ◌+◌, ◌*◌, ◌/◌, ◌%◌, ◌≤◌, ◌<◌}
use mathlib.Core.Path.{◌≡◌, refl, sym, ap, ap₂, ◌∙◌}
use mathlib.Core.List.{List, [], ◌∷◌, ◌++◌}
use mathlib.Core.List.{append-nil}
use native.Mathlib.Omega.{arith}
use openethercat.Base.Lists.{length, All}

abbrev pub IsByte : ℕ → Type 0
IsByte b = b < 256

abbrev pub IsU16 : ℕ → Type 0
IsU16 n = n < 65536

abbrev pub IsU32 : ℕ → Type 0
IsU32 n = n < 4294967296

-- `in[offset]`.
unfoldable pub byte_at : (ℕ → ℕ) → List ℕ → ℕ → ℕ
byte_at over [] i = over i
byte_at over (b ∷ bs) zero = b
byte_at over (b ∷ bs) (suc i) = byte_at over bs i

-- `assign(begin + offset, begin + offset + n)`.
unfoldable pub slice : (ℕ → ℕ) → List ℕ → ℕ → ℕ → List ℕ
slice over bs offset zero = []
slice over bs offset (suc n) = byte_at over bs offset ∷ slice over bs (suc offset) n

unfoldable pub put_le16 : ℕ → List ℕ
put_le16 value = value % 256 ∷ value / 256 % 256 ∷ []

unfoldable pub put_le32 : ℕ → List ℕ
put_le32 value = value % 256 ∷ value / 256 % 256 ∷ value / 65536 % 256 ∷ value / 16777216 % 256 ∷ []

unfoldable pub read_le16 : (ℕ → ℕ) → List ℕ → ℕ → ℕ
read_le16 over bs offset = byte_at over bs offset + byte_at over bs (offset + 1) * 256

unfoldable pub read_le32 : (ℕ → ℕ) → List ℕ → ℕ → ℕ
read_le32 over bs offset =
    byte_at over bs offset
    + byte_at over bs (offset + 1) * 256
    + byte_at over bs (offset + 2) * 65536
    + byte_at over bs (offset + 3) * 16777216

pub byte_at-over :
    (f g : ℕ → ℕ) (bs : List ℕ) (i : ℕ) → i < length bs → byte_at f bs i ≡ byte_at g bs i
unfolding byte_at
byte_at-over f g [] i h = elim h [ ]
byte_at-over f g (b ∷ bs) zero h = refl
byte_at-over f g (b ∷ bs) (suc i) h = byte_at-over f g bs i (omega arith)

pub byte_at-append :
    (f : ℕ → ℕ) (bs cs : List ℕ) (i : ℕ) → i < length bs → byte_at f (bs ++ cs) i ≡ byte_at f bs i
unfolding byte_at
byte_at-append f [] cs i h = elim h [ ]
byte_at-append f (b ∷ bs) cs zero h = refl
byte_at-append f (b ∷ bs) cs (suc i) h = byte_at-append f bs cs i (omega arith)

-- Behind a list the reads are those of what follows.
pub byte_at-append_right :
    (f : ℕ → ℕ) (bs cs : List ℕ) (i j : ℕ)
    → i ≡ length bs + j
    → byte_at f (bs ++ cs) i ≡ byte_at f cs j
unfolding byte_at
byte_at-append_right f [] cs i j h = ap (byte_at f cs) (omega arith)
byte_at-append_right f (b ∷ bs) cs zero j h = absurd (omega arith)
byte_at-append_right f (b ∷ bs) cs (suc i) j h = byte_at-append_right f bs cs i j (omega arith)

pub byte_at-IsByte :
    (f : ℕ → ℕ) (bs : List ℕ) (i : ℕ) → All IsByte bs → i < length bs → IsByte (byte_at f bs i)
unfolding byte_at
byte_at-IsByte f [] i v h = elim h [ ]
byte_at-IsByte f (b ∷ bs) zero v h = v.0
byte_at-IsByte f (b ∷ bs) (suc i) v h = byte_at-IsByte f bs i v.1 (omega arith)

pub length-slice : (f : ℕ → ℕ) (bs : List ℕ) (i n : ℕ) → length (slice f bs i n) ≡ n
unfolding slice
length-slice f bs i zero = refl
length-slice f bs i (suc n) = ap suc (length-slice f bs (suc i) n)

pub slice-over :
    (f g : ℕ → ℕ) (bs : List ℕ) (i n : ℕ) → i + n ≤ length bs → slice f bs i n ≡ slice g bs i n
unfolding slice
slice-over f g bs i zero h = refl
slice-over f g bs i (suc n) h =
    ap₂ ◌∷◌ (byte_at-over f g bs i (omega arith)) (slice-over f g bs (suc i) n (omega arith))

pub slice-append :
    (f : ℕ → ℕ) (bs cs : List ℕ) (i n : ℕ)
    → i + n ≤ length bs
    → slice f (bs ++ cs) i n ≡ slice f bs i n
unfolding slice
slice-append f bs cs i zero h = refl
slice-append f bs cs i (suc n) h =
    ap₂ ◌∷◌ (byte_at-append f bs cs i (omega arith)) (slice-append f bs cs (suc i) n (omega arith))

slice_cons :
    (f : ℕ → ℕ) (b : ℕ) (bs : List ℕ) (i n : ℕ) → slice f (b ∷ bs) (suc i) n ≡ slice f bs i n
unfolding slice byte_at
slice_cons f b bs i zero = refl
slice_cons f b bs i (suc n) = ap (◌∷◌ (byte_at f bs i)) (slice_cons f b bs (suc i) n)

slice_prefix : (f : ℕ → ℕ) (cs ds : List ℕ) → slice f (cs ++ ds) 0 (length cs) ≡ cs
unfolding slice byte_at
slice_prefix f [] ds = refl
slice_prefix f (c ∷ cs) ds =
    ap (◌∷◌ c) (slice_cons f c (cs ++ ds) 0 (length cs) ∙ slice_prefix f cs ds)

-- A field that was written between two others is read back.
pub slice_middle :
    (f : ℕ → ℕ) (bs cs ds : List ℕ) (i n : ℕ)
    → i ≡ length bs
    → n ≡ length cs
    → slice f (bs ++ (cs ++ ds)) i n ≡ cs
slice_middle f [] cs ds zero n h k = ap (slice f (cs ++ ds) 0) k ∙ slice_prefix f cs ds
slice_middle f [] cs ds (suc i) n h k = absurd (omega arith)
slice_middle f (b ∷ bs) cs ds zero n h k = absurd (omega arith)
slice_middle f (b ∷ bs) cs ds (suc i) n h k =
    slice_cons f b (bs ++ (cs ++ ds)) i n ∙ slice_middle f bs cs ds i n (omega arith) k

-- Everything behind a header.
pub slice_rest :
    (f : ℕ → ℕ) (bs cs : List ℕ) (i n : ℕ)
    → i ≡ length bs
    → n ≡ length cs
    → slice f (bs ++ cs) i n ≡ cs
slice_rest f bs cs i n h k =
    ap (λ (t : List ℕ). slice f (bs ++ t) i n) (sym (append-nil cs))
    ∙ slice_middle f bs cs [] i n h k
