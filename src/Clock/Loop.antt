-- ===== src/Clock/Loop.antt =====
-- runDcClosedLoopUpdate and updateDistributedClock of src/master/ethercat_master.cpp over the raw socket
-- transport: the time of a slave is read, the controller and the monitor take the offset, and the
-- limited correction is written. What the policy's action does to the master is its name here, and
-- the text of an error is a result. The trace output is left out.
use openethercat.Base.{ℕ, Bool, not, Option, none, some, String, ◌<>◌, if◌then◌else◌}
use openethercat.Topology.Manager.{next64}
use openethercat.Raw.{RawTransport, System, done, failed}
use openethercat.Raw.Registers.{read_dc_system_time, write_dc_system_time_offset}
use openethercat.Clock.{ℤ, pos, ◌+ℤ◌, clamp_dc_step}
use openethercat.Clock.Controller.{
  Doubles, DcSyncSample, DistributedClockController, offset_of, update_controller,
}
use openethercat.Clock.Quality.{
  DcPolicyAction, DcSyncQualityOptions, SyncMonitor, update_dc_sync_quality,
}

pub record DcClosedLoopOptions : Type 0 where
  pub loop_enabled : Bool
  pub reference_slave_position : ℕ
  pub target_phase_ns : ℤ
  pub max_correction_step_ns : ℤ
  pub max_slew_per_cycle_ns : ℤ

-- The part of the master's state that the loop uses.
pub record DcLoop (F : Type 0) : Type 0 where
  pub loop_options : DcClosedLoopOptions
  pub quality_options : DcSyncQualityOptions
  pub controller : DistributedClockController F
  pub monitor : SyncMonitor
  pub last_applied : Option ℤ
  pub trace_counter : ℕ

abbrev pub value_or_zero : Option ℤ → ℤ
value_or_zero none = pos 0
value_or_zero (some correction) = correction

-- The policy action that was called for, and the text of an error.
pub record LoopResult : Type 0 where
  pub action : Option DcPolicyAction
  pub loop_error : Option String

module _ {F : Type 0} (double : Doubles F) (index : ℕ → ℕ → ℕ) where
  -- The controller and the monitor take a sample.
  unfoldable pub update_distributed_clock :
      DcSyncSample → DcLoop F → DcLoop F × (Option DcPolicyAction × Option ℤ)
  unfolding update_controller update_dc_sync_quality
  update_distributed_clock sample l =
      let (controller, correction) = update_controller double sample l.controller in
      let (monitor, action) =
        update_dc_sync_quality index l.quality_options (offset_of double sample) l.monitor in
      (record l { controller = controller; monitor = monitor }, (action, correction))

  module _ {N : Type 0} (sys : System N) (over : ℕ → ℕ) where
    -- A correction is limited and written, and noted if it was written.
    unfoldable pub apply_correction :
        ℤ → DcLoop F → RawTransport N → (RawTransport N × DcLoop F) × Option String
    unfolding write_dc_system_time_offset clamp_dc_step
    apply_correction correction l t =
        let safe =
          clamp_dc_step correction (value_or_zero l.last_applied)
            l.loop_options.max_correction_step_ns l.loop_options.max_slew_per_cycle_ns in
        let (written, failure) =
          write_dc_system_time_offset sys over l.loop_options.reference_slave_position safe t in
        elim failure [
          | some why ↦ ((written, l), some ("DC write failed: " <> why))
          | none ↦ (
            (
              written,
              record l { last_applied = some safe; trace_counter = next64 l.trace_counter },
            ),
            none,
          )
        ]

    unfoldable pub run_dc_closed_loop_update :
        DcLoop F → RawTransport N → (RawTransport N × DcLoop F) × LoopResult
    unfolding read_dc_system_time update_distributed_clock apply_correction
    run_dc_closed_loop_update l t =
        let (read, result) =
          read_dc_system_time sys over l.loop_options.reference_slave_position t in
        if not l.loop_options.loop_enabled
        then ((t, l), record { action = none; loop_error = none })
        else elim result [
          | failed why ↦
              ((read, l), record { action = none; loop_error = some ("DC read failed: " <> why) })
          | done slave_time ↦
              let sample : DcSyncSample = record {
                reference_time_ns = slave_time;
                local_time_ns = pos (sys.now read.system) +ℤ l.loop_options.target_phase_ns;
              } in
              let (sampled, (action, correction)) = update_distributed_clock sample l in
              elim correction [
                | none ↦ ((read, sampled), record { action = action; loop_error = none })
                | some wanted ↦
                    let (applied, failure) = apply_correction wanted sampled read in
                    (applied, record { action = action; loop_error = failure })
              ]
        ]
