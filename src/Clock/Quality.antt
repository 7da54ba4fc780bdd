-- ===== src/Clock/Quality.antt =====
-- The quality of the clock's synchronisation: `updateDcSyncQualityLocked`, `applyDcPolicyLocked` and
-- `percentileFromSorted` of src/master/ethercat_master.cpp. The index that a percentile's floating point
-- formula gives is a parameter; what the policy's action does to the master is its name here.
use openethercat.Base.{
  ℕ, ◌-◌, min, Bool, true, false, not, ◌&&◌, List, [], ◌∷◌, ◌++◌, Option, none, some, if◌then◌else◌,
  leb, length, drop, get_elem?,
}
use openethercat.Topology.{sort}
use openethercat.Topology.Manager.{next64}
use openethercat.Clock.{ℤ, pos, abs}

pub data DcPolicyAction : Type 0 where
  warn degrade recover : DcPolicyAction

pub record DcSyncQualityOptions : Type 0 where
  pub enabled : Bool
  pub max_phase_error_ns : ℤ
  pub lock_acquire_in_window_cycles : ℕ
  pub max_consecutive_out_of_window_cycles : ℕ
  pub history_window_cycles : ℕ
  pub policy_action : DcPolicyAction

pub record DcSyncQuality : Type 0 where
  pub enabled : Bool
  pub locked : Bool
  pub last_phase_error_ns : ℤ
  pub samples : ℕ
  pub consecutive_in_window_cycles : ℕ
  pub consecutive_out_of_window_cycles : ℕ
  pub lock_acquisitions : ℕ
  pub lock_losses : ℕ
  pub policy_triggers : ℕ
  pub jitter_p50_ns : ℕ
  pub jitter_p95_ns : ℕ
  pub jitter_p99_ns : ℕ
  pub jitter_max_ns : ℕ

-- `dcSyncQuality_`, `dcPolicyLatched_` and `dcPhaseErrorAbsHistoryNs_`.
pub record SyncMonitor : Type 0 where
  pub quality : DcSyncQuality
  pub policy_latched : Bool
  pub history : List ℕ

unfoldable pub new_monitor : Bool → SyncMonitor
new_monitor enabled = record {
  quality = record {
    enabled = enabled;
    locked = false;
    last_phase_error_ns = pos 0;
    samples = 0;
    consecutive_in_window_cycles = 0;
    consecutive_out_of_window_cycles = 0;
    lock_acquisitions = 0;
    lock_losses = 0;
    policy_triggers = 0;
    jitter_p50_ns = 0;
    jitter_p95_ns = 0;
    jitter_p99_ns = 0;
    jitter_max_ns = 0;
  };
  policy_latched = false;
  history = [];
}

-- Whether a size is at most a signed limit.
abbrev pub fits : ℕ → ℤ → Bool
fits size (pos limit) = leb size limit
fits size (ℤ.negsuc n) = false

-- An element of a list, or zero of an empty one.
abbrev nth_or_zero : List ℕ → ℕ → ℕ
nth_or_zero entries i = elim (get_elem? entries i) [ none ↦ 0 | some n ↦ n ]

unfoldable percentile_from_sorted : (ℕ → ℕ → ℕ) → List ℕ → ℕ → ℕ
percentile_from_sorted index [] percent = 0
percentile_from_sorted index (n ∷ rest) percent =
    nth_or_zero (n ∷ rest) (min (index percent (length (n ∷ rest))) (length rest))

abbrev id : ℕ → ℕ
id n = n

-- The action taken is a result, if one is.
unfoldable pub apply_dc_policy :
    DcSyncQualityOptions → SyncMonitor → SyncMonitor × Option DcPolicyAction
apply_dc_policy o m = if m.policy_latched then (m, none) else (
  record m {
    quality = record (m.quality) { policy_triggers = next64 m.quality.policy_triggers };
    policy_latched = true;
  },
  some o.policy_action,
)

-- A sample in the window, which may lock.
unfoldable pub in_window : DcSyncQualityOptions → SyncMonitor → SyncMonitor
in_window o m =
    let run = next64 m.quality.consecutive_in_window_cycles in
    let counted = record m {
      quality = record (m.quality) {
        consecutive_in_window_cycles = run;
        consecutive_out_of_window_cycles = 0;
      };
    } in
    if not m.quality.locked && leb o.lock_acquire_in_window_cycles run
    then record counted {
      quality = record (counted.quality) {
        locked = true;
        lock_acquisitions = next64 m.quality.lock_acquisitions;
      };
      policy_latched = false;
    }
    else counted

abbrev pub unlock : SyncMonitor → SyncMonitor
unlock m = record m {
  quality = record (m.quality) {
    consecutive_in_window_cycles = 0;
    consecutive_out_of_window_cycles = next64 m.quality.consecutive_out_of_window_cycles;
    locked = false;
    lock_losses = if m.quality.locked then next64 m.quality.lock_losses else m.quality.lock_losses;
  };
}

-- A sample out of the window, which unlocks and may call for the policy.
unfoldable pub out_of_window :
    DcSyncQualityOptions → SyncMonitor → SyncMonitor × Option DcPolicyAction
unfolding apply_dc_policy
out_of_window o m =
    if leb o.max_consecutive_out_of_window_cycles
      (unlock m).quality.consecutive_out_of_window_cycles
    then apply_dc_policy o (unlock m)
    else (unlock m, none)

-- The history, trimmed from the front, and the jitter of what is left.
unfoldable pub record_error : (ℕ → ℕ → ℕ) → DcSyncQualityOptions → ℕ → SyncMonitor → SyncMonitor
unfolding percentile_from_sorted sort
record_error index o error m =
    let entries = m.history ++ (error ∷ []) in
    let history = drop (length entries - o.history_window_cycles) entries in
    let sorted = sort id history in
    record m {
      history = history;
      quality = record (m.quality) {
        jitter_p50_ns = percentile_from_sorted index sorted 50;
        jitter_p95_ns = percentile_from_sorted index sorted 95;
        jitter_p99_ns = percentile_from_sorted index sorted 99;
        jitter_max_ns = nth_or_zero sorted (length sorted - 1);
      };
    }

abbrev pub noted : ℤ → SyncMonitor → SyncMonitor
noted phase_error m = record m {
  quality = record (m.quality) {
    enabled = true;
    last_phase_error_ns = phase_error;
    samples = next64 m.quality.samples;
  };
}

unfoldable pub update_dc_sync_quality :
    (ℕ → ℕ → ℕ) → DcSyncQualityOptions → ℤ → SyncMonitor → SyncMonitor × Option DcPolicyAction
unfolding in_window out_of_window record_error
update_dc_sync_quality index o phase_error m =
    if not o.enabled
    then (m, none)
    else let (judged, action) =
        if fits (abs phase_error) o.max_phase_error_ns
        then (in_window o (noted phase_error m), none)
        else out_of_window o (noted phase_error m) in
      (record_error index o (abs phase_error) judged, action)
