-- ===== src/Clock/Steering.antt =====
-- What the closed loop of src/master/ethercat_master.cpp guarantees over any number of cycles.
use openethercat.Base.{
  ℕ, zero, suc, refl, sym, ◌⊎◌, inl, inr, if◌then◌else◌, none, some, ap, ◌≤◌, ◌≡◌, not, List, [],
  ◌∷◌, Option, String, if_both, arith,
}
use openethercat.Raw.{RawTransport, System}
use openethercat.Raw.Registers.{read_dc_system_time, write_dc_system_time_offset}
use openethercat.Raw.Exchange.{is_some}
use openethercat.Raw.Replies.{option_cases}
use openethercat.Raw.Steps.{outcome_both}
use openethercat.Clock.{ℤ, pos, negsuc, neg, ◌+ℤ◌, abs, clamp_dc_step}
use openethercat.Clock.Controller.{Doubles, DcSyncSample, update_controller, offset_of}
use openethercat.Clock.Quality.{new_monitor}
use openethercat.Clock.Limits.{clamp_dc_step_bounds}
use openethercat.Clock.Locking.{
  IsBalanced, new_monitor-IsBalanced, update_dc_sync_quality-IsBalanced,
}
use openethercat.Clock.Loop.{
  DcLoop, LoopResult, value_or_zero, apply_correction, run_dc_closed_loop_update,
  update_distributed_clock,
}

-- Both limits are set, the correction in force is within the step limit, and the monitor is balanced.
pub record IsSteered {F : Type 0} (m s : ℕ) (l : DcLoop F) : Type 0 where
  pub step_limit : l.loop_options.max_correction_step_ns ≡ pos (suc m)
  pub slew_limit : l.loop_options.max_slew_per_cycle_ns ≡ pos (suc s)
  pub within : abs (value_or_zero l.last_applied) ≤ suc m
  pub balanced : IsBalanced l.quality_options l.monitor

unmoved : (z : ℤ) (s : ℕ) → abs (z +ℤ neg z) ≤ suc s
unmoved (pos zero) s = ground arith
unmoved (pos (suc n)) s = ground arith
unmoved (negsuc n) s = ground arith

-- The limits hold of a corrected step whatever the controller asks for.
safe_bounds :
    (correction previous x y : ℤ) (m s : ℕ)
    → x ≡ pos (suc m)
    → y ≡ pos (suc s)
    → abs previous ≤ suc m
    → (abs (clamp_dc_step correction previous x y) ≤ suc m)
      × (abs (clamp_dc_step correction previous x y +ℤ neg previous) ≤ suc s)
safe_bounds correction previous x y m s ex ey within =
    rw (ex, ey) (clamp_dc_step_bounds correction previous m s within)

-- One update for each state in which the transport is found.
unfoldable pub steer_all :
    {F N : Type 0}
    → Doubles F
    → (ℕ → ℕ → ℕ)
    → System N
    → (ℕ → ℕ)
    → List (RawTransport N)
    → DcLoop F
    → DcLoop F
unfolding run_dc_closed_loop_update
steer_all double index sys over [] l = l
steer_all double index sys over (t ∷ rest) l =
    steer_all double index sys over rest (run_dc_closed_loop_update double index sys over l t).0.1

module _ {F : Type 0} (double : Doubles F) (index : ℕ → ℕ → ℕ) (m s : ℕ) where
  sampled :
      (sample : DcSyncSample) (l : DcLoop F)
      → IsSteered m s l
      → IsSteered m s (update_distributed_clock double index sample l).0
  unfolding update_distributed_clock
  sampled sample l h = record {
    step_limit = h.step_limit;
    slew_limit = h.slew_limit;
    within = h.within;
    balanced =
        update_dc_sync_quality-IsBalanced index l.quality_options (offset_of double sample)
          l.monitor h.balanced;
  }

  module _ {N : Type 0} (sys : System N) (over : ℕ → ℕ) where
    -- A correction that keeps both limits is sent to the slave, and noted if the slave took it.
    abbrev pub Sends : DcLoop F → RawTransport N → RawTransport N × DcLoop F → Type 0
    Sends l t r =
        (correction : ℤ) × (abs correction ≤ suc m)
        × (abs (correction +ℤ neg (value_or_zero l.last_applied)) ≤ suc s)
        × (let (written, failure) =
              write_dc_system_time_offset sys over l.loop_options.reference_slave_position
                correction t in
            (r.0 ≡ written)
            × (r.1.last_applied ≡ (if is_some failure then l.last_applied else some correction)))

    -- Nothing is sent, but for the reading of the time; the correction in force stays.
    abbrev pub Waits : DcLoop F → RawTransport N → RawTransport N × DcLoop F → Type 0
    Waits l t r =
        ((r.0 ≡ t)
          ⊎ (r.0 ≡ (read_dc_system_time sys over l.loop_options.reference_slave_position t).0))
        × (r.1.last_applied ≡ l.last_applied)

    pub record Updates (l : DcLoop F) (t : RawTransport N) (r : RawTransport N × DcLoop F)
        : Type 0 where
      pub steered : IsSteered m s r.1
      pub sent :
          Waits l t r
          ⊎ Sends l (read_dc_system_time sys over l.loop_options.reference_slave_position t).0 r
      pub slow : abs (value_or_zero r.1.last_applied +ℤ neg (value_or_zero l.last_applied)) ≤ suc s

    waited :
        (l : DcLoop F) (t u : RawTransport N)
        → IsSteered m s l
        → ((u ≡ t)
            ⊎ (u ≡ (read_dc_system_time sys over l.loop_options.reference_slave_position t).0))
        → Updates l t (u, l)
    waited l t u h e = record {
      steered = h;
      sent = inl (e, refl);
      slow = unmoved (value_or_zero l.last_applied) s;
    }

    record Applies (l : DcLoop F) (t : RawTransport N) (r : RawTransport N × DcLoop F)
        : Type 0 where
      applied : IsSteered m s r.1
      sends : Sends l t r
      moved : abs (value_or_zero r.1.last_applied +ℤ neg (value_or_zero l.last_applied)) ≤ suc s

    apply_correction-Applies :
        (correction : ℤ) (l : DcLoop F) (t : RawTransport N)
        → IsSteered m s l
        → Applies l t (apply_correction double index sys over correction l t).0
    unfolding apply_correction
    apply_correction-Applies correction l t h =
        let safe =
          clamp_dc_step correction (value_or_zero l.last_applied)
            l.loop_options.max_correction_step_ns l.loop_options.max_slew_per_cycle_ns in
        let w =
          write_dc_system_time_offset sys over l.loop_options.reference_slave_position safe t in
        let (small, slow) =
          safe_bounds correction (value_or_zero l.last_applied)
            l.loop_options.max_correction_step_ns l.loop_options.max_slew_per_cycle_ns m s
            h.step_limit h.slew_limit h.within in
        option_cases (λ (r : (RawTransport N × DcLoop F) × Option String). Applies l t r.0) w.1
          (λ ok. record {
            applied = record {
              step_limit = h.step_limit;
              slew_limit = h.slew_limit;
              within = small;
              balanced = h.balanced;
            };
            sends = (
              safe,
              small,
              slow,
              (
                refl,
                sym (
                    ap (λ (o : Option String). if is_some o then l.last_applied else some safe) ok),
              ),
            );
            moved = slow;
          })
          (λ why failed. record {
            applied = h;
            sends = (
              safe,
              small,
              slow,
              (
                refl,
                sym (
                    ap (λ (o : Option String). if is_some o then l.last_applied else some safe)
                      failed),
              ),
            );
            moved = unmoved (value_or_zero l.last_applied) s;
          })

    run-Updates :
        (l : DcLoop F) (t : RawTransport N)
        → IsSteered m s l
        → Updates l t (run_dc_closed_loop_update double index sys over l t).0
    unfolding run_dc_closed_loop_update update_distributed_clock update_controller
    run-Updates l t h =
        let Good : (RawTransport N × DcLoop F) × LoopResult → Type 0 = λ r. Updates l t r.0 in
        let r = read_dc_system_time sys over l.loop_options.reference_slave_position t in
        if_both Good (not l.loop_options.loop_enabled) (waited l t t h (inl refl)) (
          outcome_both Good r.1
            (λ slave_time.
              let sample : DcSyncSample = record {
                reference_time_ns = slave_time;
                local_time_ns = pos (sys.now r.0.system) +ℤ l.loop_options.target_phase_ns;
              } in
              let u = update_distributed_clock double index sample l in
              let wanted = (update_controller double sample l.controller).0.stats.correction_ns in
              let a = apply_correction-Applies wanted u.0 r.0 (sampled sample l h) in
              record { steered = a.applied; sent = inr (a.sends); slow = a.moved })
            (λ why. waited l t r.0 h (inr refl)))

    steer_all-IsSteered :
        (found : List (RawTransport N)) (l : DcLoop F)
        → IsSteered m s l
        → IsSteered m s (steer_all double index sys over found l)
    unfolding steer_all
    steer_all-IsSteered [] l h = h
    steer_all-IsSteered (t ∷ rest) l h =
        steer_all-IsSteered rest (run_dc_closed_loop_update double index sys over l t).0.1
          (run-Updates l t h).steered

-- A loop with both limits set, as it is configured: no correction is in force, and the monitor is new.
pub record IsConfigured {F : Type 0} (m s : ℕ) (l : DcLoop F) : Type 0 where
  pub has_step_limit : l.loop_options.max_correction_step_ns ≡ pos (suc m)
  pub has_slew_limit : l.loop_options.max_slew_per_cycle_ns ≡ pos (suc s)
  pub none_applied : l.last_applied ≡ none
  pub new : l.monitor ≡ new_monitor l.quality_options.enabled

configured-IsSteered : {F : Type 0} {m s : ℕ} {l : DcLoop F} → IsConfigured m s l → IsSteered m s l
configured-IsSteered {l = l} c = record {
  step_limit = c.has_step_limit;
  slew_limit = c.has_slew_limit;
  within = rw (c.none_applied) (omega arith);
  balanced = rw (c.new) (new_monitor-IsBalanced l.quality_options l.quality_options.enabled);
}

-- A loop starts as it is configured, with both limits set. After any number of updates, whatever
-- happened to the transport between them and whatever the controller asks for, the correction in force
-- is within the step limit and the monitor's locks are balanced. The next update either sends no
-- correction and keeps the one in force, or sends the slave one that is within the step limit and
-- differs from the one in force by no more than the slew limit, and notes it exactly if the write
-- succeeds.
pub closed_loop-IsSteered :
    {F N : Type 0} (double : Doubles F) (index : ℕ → ℕ → ℕ) (m s : ℕ) (sys : System N)
    (over : ℕ → ℕ) (found : List (RawTransport N)) (t : RawTransport N) (l : DcLoop F)
    → IsConfigured m s l
    → let now = steer_all double index sys over found l in
      IsSteered m s now
      × Updates double index m s sys over now t
          (run_dc_closed_loop_update double index sys over now t).0
closed_loop-IsSteered double index m s sys over found t l c =
    let steered = steer_all-IsSteered double index m s sys over found l (configured-IsSteered c) in
    (steered, run-Updates double index m s sys over _ t steered)
