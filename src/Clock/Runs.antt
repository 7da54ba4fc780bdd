-- ===== src/Clock/Runs.antt =====
-- The limits on a correction, the lock, and the closed loop on a simulated network, at concrete numbers.
use openethercat.Base.{
  ℕ, ◌≡◌, refl, true, List, [], ◌∷◌, none, some, ◌*◌, ◌/◌, if◌then◌else◌, replicate,
}
use openethercat.Base.Bytes.{byte_at, slice}
use openethercat.Clock.{ℤ, pos, negsuc, neg, ◌+ℤ◌, abs, is_negative, clamp_dc_step}
use openethercat.Clock.Controller.{Doubles}
use openethercat.Clock.Loop.{DcLoop, run_dc_closed_loop_update}
use openethercat.Clock.Steering.{IsSteered, IsConfigured, Updates, steer_all, closed_loop-IsSteered}
use openethercat.Raw.{RawTransport}
use openethercat.Raw.Sim.{Net, sim, zeros, raw_at}
use openethercat.Clock.Quality.{DcSyncQualityOptions, warn, new_monitor}
use openethercat.Clock.Locking.{IsBalanced, monitor_all, monitor_all-IsBalanced}

jump : clamp_dc_step (pos 90000) (pos 1000) (pos 20000) (pos 5000) ≡ pos 6000
unfolding clamp_dc_step
jump = refl

step : clamp_dc_step (negsuc 89999) (pos 0) (pos 20000) (pos 0) ≡ negsuc 19999
unfolding clamp_dc_step
step = refl

abbrev options : DcSyncQualityOptions
options = record {
  enabled = true;
  max_phase_error_ns = pos 50;
  lock_acquire_in_window_cycles = 2;
  max_consecutive_out_of_window_cycles = 1;
  history_window_cycles = 3;
  policy_action = warn;
}

abbrev errors : List ℤ
errors = pos 10 ∷ negsuc 19 ∷ pos 5 ∷ pos 900 ∷ pos 0 ∷ []

abbrev nearest : ℕ → ℕ → ℕ
nearest percent size = 0

losses : (monitor_all nearest options errors (new_monitor true)).quality.lock_losses ≡ 1
unfolding monitor_all new_monitor
losses = refl

monitor_all-IsBalanced_example :
    IsBalanced options (monitor_all nearest options errors (new_monitor true))
monitor_all-IsBalanced_example = monitor_all-IsBalanced nearest options errors true

-- Integers in place of `double`, which is enough to run the loop.
abbrev product : ℤ → ℤ → ℤ
product a b =
    if is_negative a
    then (if is_negative b then pos (abs a * abs b) else neg (pos (abs a * abs b)))
    else (if is_negative b then neg (pos (abs a * abs b)) else pos (abs a * abs b))

abbrev integers : Doubles ℤ
integers = record {
  of_int = λ z. z;
  to_int = λ z. z;
  add = λ a b. a +ℤ b;
  subtract = λ a b. a +ℤ neg b;
  times = product;
  divide = λ a b. pos (abs a / abs b);
  negated = neg;
  root = λ z. z;
  below = λ a b. is_negative (a +ℤ neg b);
}

abbrev closed : DcLoop ℤ
unfolding new_monitor
closed = record {
  loop_options = record {
    loop_enabled = true;
    reference_slave_position = 1;
    target_phase_ns = pos 0;
    max_correction_step_ns = pos 20000;
    max_slew_per_cycle_ns = pos 5000;
  };
  quality_options = options;
  controller = record {
    gains = record {
      filter_alpha = pos 1;
      kp = pos 1;
      ki = pos 0;
      correction_clamp_ns = pos 50000;
    };
    stats = record {
      last_offset_ns = pos 0;
      filtered_offset_ns = pos 0;
      correction_ns = pos 0;
      max_abs_offset_ns = 0;
      jitter_rms_ns = pos 0;
      dc_samples = 0;
    };
    integral = pos 0;
    sum_squares = pos 0;
  };
  monitor = new_monitor true;
  last_applied = none;
  trace_counter = 0;
}

-- The slave's clock shows 131072.
abbrev ahead : RawTransport Net
ahead = raw_at (record {
  clock = 0;
  script = (0 ∷ 0 ∷ 2 ∷ 0 ∷ 0 ∷ 0 ∷ 0 ∷ 0 ∷ []) ∷ replicate 8 0 ∷ [];
  inbox = [];
})

first_correction :
    (steer_all integers nearest sim zeros (ahead ∷ []) closed).last_applied ≡ some (pos 5000)
unfolding steer_all byte_at slice closed
first_correction = refl

closed-IsConfigured : IsConfigured 19999 4999 closed
unfolding closed
closed-IsConfigured = record {
  has_step_limit = refl;
  has_slew_limit = refl;
  none_applied = refl;
  new = refl;
}

closed_loop-IsSteered_example :
    let now = steer_all integers nearest sim zeros (ahead ∷ []) closed in
    IsSteered 19999 4999 now
    × Updates integers nearest 19999 4999 sim zeros now ahead
        (run_dc_closed_loop_update integers nearest sim zeros now ahead).0
closed_loop-IsSteered_example =
    closed_loop-IsSteered integers nearest 19999 4999 sim zeros (ahead ∷ []) ahead closed
      closed-IsConfigured
