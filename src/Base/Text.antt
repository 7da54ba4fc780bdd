-- ===== src/Base/Text.antt =====
-- Texts of messages: joining, `std::to_string` of an unsigned number, and `std::hex`.
use Prim.Native.Nat.{ℕ, zero, suc, ◌/◌, ◌%◌}
use Prim.Native.String.{String, ◌++◌ as ◌<>◌}
use openethercat.Base.Tests.{ltb, ◌==◌, if◌then◌else◌}

digit : ℕ → String
digit n =
    if n == 0
    then "0"
    else if n == 1
    then "1"
    else if n == 2
    then "2"
    else if n == 3
    then "3"
    else if n == 4
    then "4"
    else if n == 5
    then "5"
    else if n == 6
    then "6"
    else if n == 7
    then "7"
    else if n == 8
    then "8"
    else if n == 9
    then "9"
    else if n == 10
    then "a"
    else if n == 11
    then "b"
    else if n == 12
    then "c"
    else if n == 13
    then "d"
    else if n == 14
    then "e"
    else "f"

digits_of : ℕ → ℕ → ℕ → String
unfolding digit
digits_of base zero n = ""
digits_of base (suc rounds) n =
    let rest = digits_of base rounds (n / base) in
    if ltb n base then digit n else rest <> digit (n % base)

-- A 64-bit number has at most 20 digits.
unfoldable pub to_string : ℕ → String
unfolding digits_of
to_string n = digits_of 10 20 n

-- A 64-bit number has at most 16 hexadecimal digits.
unfoldable pub to_hex : ℕ → String
unfolding digits_of
to_hex n = digits_of 16 16 n
