-- ===== src/Clock.antt =====
-- The limits on a correction of the distributed clock in src/master/ethercat_master.cpp. Signed numbers
-- have no bound here: where the source's 64-bit arithmetic would overflow its behaviour is undefined.
pub mod Limits
pub mod Quality
pub mod Locking
pub mod Controller
pub mod Loop
pub mod Steering
mod Runs
use openethercat.Base.{ℕ, zero, suc, ◌+◌, ◌-◌, Bool, true, false, ◌&&◌, if◌then◌else◌, ltb}

pub data ℤ : Type 0 where
  pos negsuc : ℕ → ℤ

-- The difference of two natural numbers.
abbrev minus : ℕ → ℕ → ℤ
minus a b = if ltb a b then negsuc (b - a - 1) else pos (a - b)

abbrev pub neg : ℤ → ℤ
neg (pos zero) = pos zero
neg (pos (suc n)) = negsuc n
neg (negsuc n) = pos (suc n)

infixl 60 ◌+ℤ◌
abbrev pub ◌+ℤ◌ : ℤ → ℤ → ℤ
pos a +ℤ pos b = pos (a + b)
pos a +ℤ negsuc b = minus a (suc b)
negsuc a +ℤ pos b = minus b (suc a)
negsuc a +ℤ negsuc b = negsuc (suc (a + b))

-- `std::llabs`.
abbrev pub abs : ℤ → ℕ
abs (pos n) = n
abs (negsuc n) = suc n

abbrev pub is_negative : ℤ → Bool
is_negative (pos n) = false
is_negative (negsuc n) = true

abbrev is_positive : ℤ → Bool
is_positive (pos zero) = false
is_positive (pos (suc n)) = true
is_positive (negsuc n) = false

-- A value cut to a positive limit, on its own side of zero.
unfoldable pub limited : ℤ → ℤ → ℤ
limited value limit =
    if ltb (abs limit) (abs value) then (if is_negative value then neg limit else limit) else value

unfoldable pub clamp_dc_step : ℤ → ℤ → ℤ → ℤ → ℤ
unfolding limited
clamp_dc_step correction previous max_step max_slew =
    let clamped = if is_positive max_step then limited correction max_step else correction in
    let change = clamped +ℤ neg previous in
    if is_positive max_slew && ltb (abs max_slew) (abs change)
    then previous +ℤ (if is_negative change then neg max_slew else max_slew)
    else clamped
