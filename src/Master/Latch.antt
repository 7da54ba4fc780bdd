-- ===== src/Master/Latch.antt =====
-- The topology policy answers a condition once: its counters and its latches.
use openethercat.Base.{
  ℕ, ◌≡◌, refl, ap, ◌∙◌, Bool, true, false, not, ◌&&◌, ◌||◌, List, Option, String, if_both,
  if◌then◌else◌, leb,
}
use openethercat.Config.{SlaveIdentity}
use openethercat.Transport.{Transport}
use openethercat.Master.{
  Master, TopologyPolicyAction, monitor, retry, reconfigure, degrade, fail_stop,
  redundancy_degraded, recovering, redundant_healthy,
}
use openethercat.Master.Log.{append_recovery_event, transition_redundancy_state, same_redundancy}
use openethercat.Master.Wait.{Host}
use openethercat.Master.Recovery.{recover_network}
use openethercat.Master.Kept.{IsKept, kept_equation, recover_network-IsKept}
use openethercat.Master.Policy.{
  observe, track_fault, settle, act, emit_event, answer_missing, answer_hot_connect,
  answer_redundancy, apply_topology_policy, first_position, is_some, position_or_zero,
}
use openethercat.Master.Conditions.{
  conditions, next_conditions, View, fire_missing, fire_hot_connect, fire_redundancy, algebra,
}

module _ {T : Type 0} where
  abbrev view : Master T → View
  view m = (m.topology_recovery_options, conditions m)

  -- What the policy looks at is the same.
  IsSteady : Master T → Master T → Type 0
  IsSteady a b = view b ≡ view a

  kept-IsSteady : (a b : Master T) → IsKept a b → IsSteady a b
  unfolding IsSteady
  kept-IsSteady a b k = ap view (kept_equation a b k)

  track_fault-IsSteady :
      (healthy : Bool) (generation : ℕ) (m : Master T)
      → IsSteady m (track_fault healthy generation m)
  unfolding track_fault IsSteady transition_redundancy_state
  track_fault-IsSteady healthy generation m =
      if_both (IsSteady m) (not healthy && not m.redundancy_fault_active)
        (if_both (IsSteady m) (same_redundancy m.redundancy_status.state redundancy_degraded) refl
          refl)
        (if_both (IsSteady m) (healthy && m.redundancy_fault_active)
          (if_both (IsSteady m) (same_redundancy m.redundancy_status.state recovering) refl refl)
          refl)

  settle-IsSteady :
      (healthy : Bool) (generation : ℕ) (m : Master T) → IsSteady m (settle healthy generation m)
  unfolding settle IsSteady transition_redundancy_state
  settle-IsSteady healthy generation m =
      if_both (IsSteady m) (healthy && same_redundancy m.redundancy_status.state recovering)
        (if_both (IsSteady m) (same_redundancy m.redundancy_status.state redundant_healthy) refl
          refl)
        refl

module _ {T : Type 0} (io : Transport T) (host : Host T) where
  act-IsSteady :
      (name : String) (position : ℕ) (a : TopologyPolicyAction) (generation : ℕ) (m : Master T)
      → IsSteady m (act io host name position a generation m)
  unfolding act emit_event append_recovery_event IsSteady
  act-IsSteady name position monitor generation m = refl
  act-IsSteady name position retry generation m =
      kept-IsSteady m (recover_network io host m).0 (recover_network-IsKept io host m)
  act-IsSteady name position reconfigure generation m =
      kept-IsSteady m (recover_network io host m).0 (recover_network-IsKept io host m)
  act-IsSteady name position degrade generation m = refl
  act-IsSteady name position fail_stop generation m = refl

  view-answer_missing :
      (first : Option ℕ) (generation : ℕ) (m : Master T)
      → view (answer_missing io host first generation m) ≡ fire_missing (is_some first) (view m)
  unfolding answer_missing IsSteady
  view-answer_missing first generation m =
      fired
        (act io host "missing-slave" (position_or_zero first)
          m.topology_recovery_options.missing_slave_action generation m)
        (is_some first
          && not m.missing_policy_latched
          && leb m.topology_recovery_options.missing_grace_cycles m.missing_condition_cycles)
        (act-IsSteady "missing-slave" (position_or_zero first)
          m.topology_recovery_options.missing_slave_action generation m)
    where
      fired :
          (acted : Master T) (b : Bool)
          → view acted ≡ view m
          → view (if b then record acted { missing_policy_latched = true } else m) ≡ (
            m.topology_recovery_options,
            record (conditions m) { missing_latched = b || m.missing_policy_latched },
          )
      fired acted true s = ap (λ (v : View). (v.0, record (v.1) { missing_latched = true })) s
      fired acted false s = refl

  view-answer_hot_connect :
      (first : Option ℕ) (generation : ℕ) (m : Master T)
      → view (answer_hot_connect io host first generation m)
        ≡ fire_hot_connect (is_some first) (view m)
  unfolding answer_hot_connect IsSteady
  view-answer_hot_connect first generation m =
      fired
        (act io host "hot-connect" (position_or_zero first)
          m.topology_recovery_options.hot_connect_action generation m)
        (is_some first
          && not m.hot_connect_policy_latched
          && leb m.topology_recovery_options.hot_connect_grace_cycles
              m.hot_connect_condition_cycles)
        (act-IsSteady "hot-connect" (position_or_zero first)
          m.topology_recovery_options.hot_connect_action generation m)
    where
      fired :
          (acted : Master T) (b : Bool)
          → view acted ≡ view m
          → view (if b then record acted { hot_connect_policy_latched = true } else m) ≡ (
            m.topology_recovery_options,
            record (conditions m) { hot_connect_latched = b || m.hot_connect_policy_latched },
          )
      fired acted true s = ap (λ (v : View). (v.0, record (v.1) { hot_connect_latched = true })) s
      fired acted false s = refl

  view-answer_redundancy :
      (healthy : Bool) (generation : ℕ) (m : Master T)
      → view (answer_redundancy io host healthy generation m)
        ≡ fire_redundancy (not healthy) (view m)
  unfolding answer_redundancy IsSteady
  view-answer_redundancy healthy generation m =
      fired
        (act io host "redundancy-down" 0 m.topology_recovery_options.redundancy_action generation m)
        (not healthy
          && not m.redundancy_policy_latched
          && leb m.topology_recovery_options.redundancy_grace_cycles m.redundancy_condition_cycles)
        (act-IsSteady "redundancy-down" 0 m.topology_recovery_options.redundancy_action generation
          m)
    where
      fired :
          (acted : Master T) (b : Bool)
          → view acted ≡ view m
          → view (if b then record acted { redundancy_policy_latched = true } else m) ≡ (
            m.topology_recovery_options,
            record (conditions m) { redundancy_latched = b || m.redundancy_policy_latched },
          )
      fired acted true s = ap (λ (v : View). (v.0, record (v.1) { redundancy_latched = true })) s
      fired acted false s = refl

  view-apply_topology_policy :
      (missing hot_connected : List SlaveIdentity) (healthy : Bool) (generation : ℕ) (m : Master T)
      → view (apply_topology_policy io host missing hot_connected healthy generation m)
        ≡ fire_redundancy (not healthy) (
            fire_hot_connect (is_some (first_position hot_connected)) (
              fire_missing (is_some (first_position missing)) (
                view (
                  observe
                    (is_some (first_position missing))
                    (is_some (first_position hot_connected))
                    healthy
                    m))))
  unfolding apply_topology_policy IsSteady
  view-apply_topology_policy missing hot_connected healthy generation m =
      let seen =
        observe (is_some (first_position missing)) (is_some (first_position hot_connected)) healthy
          m in
      let tracked = track_fault healthy generation seen in
      let first = answer_missing io host (first_position missing) generation tracked in
      let second = answer_hot_connect io host (first_position hot_connected) generation first in
      let third = answer_redundancy io host healthy generation second in
      settle-IsSteady healthy generation third
      ∙ (view-answer_redundancy healthy generation second
          ∙ ap (fire_redundancy (not healthy)) (
              view-answer_hot_connect (first_position hot_connected) generation first
              ∙ ap (fire_hot_connect (is_some (first_position hot_connected))) (
                  view-answer_missing (first_position missing) generation tracked
                  ∙ ap (fire_missing (is_some (first_position missing)))
                      (track_fault-IsSteady healthy generation seen))))

  -- With every scan the policy counts, for each of its three conditions, the scans in a row in which it
  -- holds, and latches it exactly when it holds and either was latched before or has now held for its
  -- grace period; a condition that does not hold has count zero and no latch. The options are kept,
  -- whatever the actions do.
  pub apply_topology_policy-conditions :
      (missing hot_connected : List SlaveIdentity) (healthy : Bool) (generation : ℕ) (m : Master T)
      → let after = apply_topology_policy io host missing hot_connected healthy generation m in
        (after.topology_recovery_options ≡ m.topology_recovery_options)
        × (conditions after
            ≡ next_conditions m.topology_recovery_options
                (is_some (first_position missing))
                (is_some (first_position hot_connected))
                (not healthy)
                (conditions m))
  unfolding observe
  apply_topology_policy-conditions missing hot_connected healthy generation m = (
    ap (λ (v : View). v.0) (view-apply_topology_policy missing hot_connected healthy generation m),
    ap (λ (v : View). v.1) (view-apply_topology_policy missing hot_connected healthy generation m)
        ∙ algebra m.topology_recovery_options (is_some (first_position missing))
            (is_some (first_position hot_connected)) healthy (conditions m),
  )
