-- ===== src/Clock/Limits.antt =====
-- What the limits guarantee.
use openethercat.Base.{ℕ, zero, suc, ◌≤◌, if◌then◌else◌, ltb, arith}
use openethercat.Clock.{ℤ, pos, negsuc, neg, ◌+ℤ◌, abs, is_negative, limited, clamp_dc_step}

limited_lem : (value : ℤ) (m : ℕ) → abs (limited value (pos (suc m))) ≤ suc m
unfolding limited
limited_lem (pos n) m = ground arith
limited_lem (negsuc n) m = ground arith

-- The second half of the clamp, on a value that keeps the first limit.
slew : ℤ → ℤ → ℕ → ℤ
slew clamped previous s =
    if ltb (suc s) (abs (clamped +ℤ neg previous))
    then previous +ℤ (if is_negative (clamped +ℤ neg previous) then negsuc s else pos (suc s))
    else clamped

slew_bounds :
    (clamped previous : ℤ) (m s : ℕ)
    → abs clamped ≤ suc m
    → abs previous ≤ suc m
    → (abs (slew clamped previous s) ≤ suc m)
      × (abs (slew clamped previous s +ℤ neg previous) ≤ suc s)
unfolding slew
slew_bounds (pos a) (pos zero) m s h k = ground arith
slew_bounds (pos a) (pos (suc b)) m s h k = ground arith
slew_bounds (pos a) (negsuc b) m s h k = ground arith
slew_bounds (negsuc a) (pos zero) m s h k = ground arith
slew_bounds (negsuc a) (pos (suc b)) m s h k = ground arith
slew_bounds (negsuc a) (negsuc b) m s h k = ground arith

-- With both limits set, and the last correction within the step limit, the next correction is within
-- the step limit again and differs from the last one by no more than the slew limit, whatever the
-- controller asks for.
pub clamp_dc_step_bounds :
    (correction previous : ℤ) (m s : ℕ)
    → abs previous ≤ suc m
    → (abs (clamp_dc_step correction previous (pos (suc m)) (pos (suc s))) ≤ suc m)
      × (abs (clamp_dc_step correction previous (pos (suc m)) (pos (suc s)) +ℤ neg previous)
          ≤ suc s)
unfolding clamp_dc_step slew
clamp_dc_step_bounds correction previous m s within =
    slew_bounds (limited correction (pos (suc m))) previous m s (limited_lem correction m) within
