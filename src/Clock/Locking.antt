-- ===== src/Clock/Locking.antt =====
-- The lock of the clock's synchronisation over any sequence of samples.
use openethercat.Base.{
  ℕ, ◌-◌, ◌≤◌, ◌≡◌, refl, ap, Bool, true, not, ◌&&◌, List, [], ◌∷◌, ◌++◌, Option, none,
  if◌then◌else◌, if_both, if_cases, leb, length, length-drop, arith,
}
use openethercat.Topology.Manager.{next64}
use openethercat.Clock.{ℤ, abs}
use openethercat.Clock.Quality.{
  DcSyncQualityOptions, DcPolicyAction, SyncMonitor, new_monitor, fits, unlock, noted,
  apply_dc_policy, in_window, out_of_window, record_error, update_dc_sync_quality,
}

-- Every lock that was acquired was lost again, but for the one that is held; a locked monitor counts no
-- cycles out of the window; the history is no longer than its window.
pub record IsBalanced (o : DcSyncQualityOptions) (m : SyncMonitor) : Type 0 where
  pub balance :
      m.quality.lock_acquisitions
      ≡ (if m.quality.locked then next64 m.quality.lock_losses else m.quality.lock_losses)
  pub no_loss : m.quality.locked ≡ true → m.quality.consecutive_out_of_window_cycles ≡ 0
  pub bounded : length m.history ≤ o.history_window_cycles

pub new_monitor-IsBalanced :
    (o : DcSyncQualityOptions) (enabled : Bool) → IsBalanced o (new_monitor enabled)
unfolding new_monitor
new_monitor-IsBalanced o enabled = record {
  balance = refl;
  no_loss = λ e. refl;
  bounded = omega arith;
}

in_window-IsBalanced :
    (o : DcSyncQualityOptions) (m : SyncMonitor) → IsBalanced o m → IsBalanced o (in_window o m)
unfolding in_window
in_window-IsBalanced o m b =
    if_cases (IsBalanced o)
      (not m.quality.locked
        && leb o.lock_acquire_in_window_cycles (next64 m.quality.consecutive_in_window_cycles))
      (λ locks. record {
        balance = ap next64 (ground (arith, b.balance, locks));
        no_loss = λ e. refl;
        bounded = b.bounded;
      })
      (λ stays. record { balance = b.balance; no_loss = λ e. refl; bounded = b.bounded })

policy-IsBalanced :
    (o : DcSyncQualityOptions) (m : SyncMonitor)
    → IsBalanced o m
    → IsBalanced o (apply_dc_policy o m).0
unfolding apply_dc_policy
policy-IsBalanced o m b =
    if_both (λ (r : SyncMonitor × Option DcPolicyAction). IsBalanced o r.0) m.policy_latched b
      (record { balance = b.balance; no_loss = b.no_loss; bounded = b.bounded })

out_of_window-IsBalanced :
    (o : DcSyncQualityOptions) (m : SyncMonitor)
    → IsBalanced o m
    → IsBalanced o (out_of_window o m).0
unfolding out_of_window
out_of_window-IsBalanced o m b =
    let unlocked : IsBalanced o (unlock m) = record {
      balance = b.balance;
      no_loss = λ e. absurd (cc e);
      bounded = b.bounded;
    } in
    if_both (λ (r : SyncMonitor × Option DcPolicyAction). IsBalanced o r.0)
      (leb o.max_consecutive_out_of_window_cycles
        (unlock m).quality.consecutive_out_of_window_cycles)
      (policy-IsBalanced o (unlock m) unlocked) unlocked

record_error-IsBalanced :
    (index : ℕ → ℕ → ℕ) (o : DcSyncQualityOptions) (error : ℕ) (m : SyncMonitor)
    → IsBalanced o m
    → IsBalanced o (record_error index o error m)
unfolding record_error
record_error-IsBalanced index o error m b =
    let entries = m.history ++ (error ∷ []) in
    record {
      balance = b.balance;
      no_loss = b.no_loss;
      bounded = omega (arith, length-drop (length entries - o.history_window_cycles) entries);
    }

pub update_dc_sync_quality-IsBalanced :
    (index : ℕ → ℕ → ℕ) (o : DcSyncQualityOptions) (error : ℤ) (m : SyncMonitor)
    → IsBalanced o m
    → IsBalanced o (update_dc_sync_quality index o error m).0
unfolding update_dc_sync_quality
update_dc_sync_quality-IsBalanced index o error m b =
    let seen : IsBalanced o (noted error m) = record {
      balance = b.balance;
      no_loss = b.no_loss;
      bounded = b.bounded;
    } in
    let judged =
      if fits (abs error) o.max_phase_error_ns
      then (in_window o (noted error m), none)
      else out_of_window o (noted error m) in
    if_both (λ (r : SyncMonitor × Option DcPolicyAction). IsBalanced o r.0) (not o.enabled) b
      (record_error-IsBalanced index o (abs error) judged.0 (
        if_both (λ (r : SyncMonitor × Option DcPolicyAction). IsBalanced o r.0)
          (fits (abs error) o.max_phase_error_ns) (in_window-IsBalanced o (noted error m) seen)
          (out_of_window-IsBalanced o (noted error m) seen)))

-- A number of samples, one after the other.
unfoldable pub monitor_all : (ℕ → ℕ → ℕ) → DcSyncQualityOptions → List ℤ → SyncMonitor → SyncMonitor
unfolding update_dc_sync_quality
monitor_all index o [] m = m
monitor_all index o (error ∷ rest) m =
    monitor_all index o rest (update_dc_sync_quality index o error m).0

monitored-IsBalanced :
    (index : ℕ → ℕ → ℕ) (o : DcSyncQualityOptions) (errors : List ℤ) (m : SyncMonitor)
    → IsBalanced o m
    → IsBalanced o (monitor_all index o errors m)
unfolding monitor_all
monitored-IsBalanced index o [] m b = b
monitored-IsBalanced index o (e ∷ rest) m b =
    monitored-IsBalanced index o rest (update_dc_sync_quality index o e m).0
      (update_dc_sync_quality-IsBalanced index o e m b)

-- After any samples, every lock that was acquired was lost again, but for the one that is held; a
-- locked monitor counts no cycles out of the window; the history is no longer than its window.
pub monitor_all-IsBalanced :
    (index : ℕ → ℕ → ℕ) (o : DcSyncQualityOptions) (errors : List ℤ) (enabled : Bool)
    → IsBalanced o (monitor_all index o errors (new_monitor enabled))
monitor_all-IsBalanced index o errors enabled =
    monitored-IsBalanced index o errors (new_monitor enabled) (new_monitor-IsBalanced o enabled)
