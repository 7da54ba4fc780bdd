-- ===== src/Clock/Controller.antt =====
-- src/master/distributed_clock.cpp: the controller of the distributed clock. The arithmetic of `double` is
-- a parameter, as a record of the operations that the source uses.
use openethercat.Base.{ℕ, Bool, Option, some, if◌then◌else◌, ltb, ◌==◌}
use openethercat.Topology.Manager.{next64}
use openethercat.Clock.{ℤ, pos, neg, ◌+ℤ◌, abs}

pub record Doubles (F : Type 0) : Type 0 where
  pub of_int : ℤ → F
  pub to_int : F → ℤ
  pub add : F → F → F
  pub subtract : F → F → F
  pub times : F → F → F
  pub divide : F → F → F
  pub negated : F → F
  pub root : F → F
  pub below : F → F → Bool

pub record DcSyncSample : Type 0 where
  pub reference_time_ns : ℤ
  pub local_time_ns : ℤ

pub record DcSyncStats (F : Type 0) : Type 0 where
  pub last_offset_ns : ℤ
  pub filtered_offset_ns : ℤ
  pub correction_ns : ℤ
  pub max_abs_offset_ns : ℕ
  pub jitter_rms_ns : F
  pub dc_samples : ℕ

pub record ControllerOptions (F : Type 0) : Type 0 where
  pub filter_alpha : F
  pub kp : F
  pub ki : F
  pub correction_clamp_ns : ℤ

pub record DistributedClockController (F : Type 0) : Type 0 where
  pub gains : ControllerOptions F
  pub stats : DcSyncStats F
  pub integral : F
  pub sum_squares : F

module _ {F : Type 0} (double : Doubles F) where
  -- The difference of the two times of a sample.
  abbrev pub offset_of : DcSyncSample → ℤ
  offset_of sample = sample.reference_time_ns +ℤ neg sample.local_time_ns

  -- `std::clamp`.
  abbrev clamp : F → F → F → F
  clamp value low high =
      if double.below value low then low else if double.below high value then high else value

  -- The first offset as it is, each later one mixed into the filtered one.
  unfoldable pub filtered : DistributedClockController F → ℤ → F
  filtered c offset =
      let alpha = c.gains.filter_alpha in
      if c.stats.dc_samples == 0
      then double.of_int offset
      else double.add
          (double.times (double.subtract (double.of_int (pos 1)) alpha)
            (double.of_int c.stats.filtered_offset_ns))
          (double.times alpha (double.of_int offset))

  unfoldable pub reset_controller : DistributedClockController F → DistributedClockController F
  reset_controller c = record c {
    stats = record {
      last_offset_ns = pos 0;
      filtered_offset_ns = pos 0;
      correction_ns = pos 0;
      max_abs_offset_ns = 0;
      jitter_rms_ns = double.of_int (pos 0);
      dc_samples = 0;
    };
    integral = double.of_int (pos 0);
    sum_squares = double.of_int (pos 0);
  }

  unfoldable pub update_controller :
      DcSyncSample → DistributedClockController F → DistributedClockController F × Option ℤ
  unfolding filtered
  update_controller sample c =
      let offset = offset_of sample in
      let value = filtered c offset in
      let integral = double.add c.integral value in
      let limit = double.of_int c.gains.correction_clamp_ns in
      let correction = double.to_int (
        clamp (double.add (double.times c.gains.kp value) (double.times c.gains.ki integral))
          (double.negated limit) limit) in
      let squares =
        double.add c.sum_squares (double.times (double.of_int offset) (double.of_int offset)) in
      let samples = next64 c.stats.dc_samples in
      (
        record {
          gains = c.gains;
          stats = record {
            last_offset_ns = offset;
            filtered_offset_ns = double.to_int value;
            correction_ns = correction;
            max_abs_offset_ns =
                if ltb c.stats.max_abs_offset_ns (abs offset)
                then abs offset
                else c.stats.max_abs_offset_ns;
            jitter_rms_ns = double.root (double.divide squares (double.of_int (pos samples)));
            dc_samples = samples;
          };
          integral = integral;
          sum_squares = squares;
        },
        some correction,
      )
