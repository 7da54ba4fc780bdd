-- ===== src/Master/History.antt =====
-- The log of redundancy transitions: linked, without idle entries, bounded.
use openethercat.Base.{
  ℕ, zero, suc, ◌-◌, ◌≤◌, ◌≡◌, refl, sym, ap, ◌∙◌, ◌≢◌, true, false, List, [], ◌∷◌, ◌++◌, String,
  if_both, if_cases, arith, length, drop, ltb, length-drop,
}
use openethercat.Master.{
  Master, RecoveryEvent, RedundancyState, RedundancyTransition, primary_only, redundant_healthy,
  redundancy_degraded, recovering, TopologyRecoveryOptions,
}
use openethercat.Master.Log.{
  append_recovery_event, transition_redundancy_state, redundancy_transition, same_redundancy,
  newest,
}

-- Each entry leads from one state to another, where the next entry begins; the last to the present.
abbrev AreLinked : List RedundancyTransition → RedundancyState → Type 0
AreLinked [] now = Unit
AreLinked (e ∷ []) now = (e.before ≢ e.after) × (e.after ≡ now)
AreLinked (e ∷ (f ∷ rest)) now =
    (e.before ≢ e.after) × (e.after ≡ f.before) × AreLinked (f ∷ rest) now

-- The log, the present state, and the bounds, none of which is zero.
pub record Sound (transitions : List RedundancyTransition) (now : RedundancyState)
    (limit event_limit : ℕ) (o : TopologyRecoveryOptions) : Type 0 where
  pub linked : AreLinked transitions now
  pub bounded : length transitions ≤ limit
  pub keeps_one : 1 ≤ limit
  pub keeps_one_event : 1 ≤ event_limit
  pub waits_missing : 1 ≤ o.missing_grace_cycles
  pub waits_hot_connect : 1 ≤ o.hot_connect_grace_cycles
  pub waits_redundancy : 1 ≤ o.redundancy_grace_cycles

abbrev pub IsSound : {T : Type 0} → Master T → Type 0
IsSound m =
    Sound m.redundancy_transitions m.redundancy_status.state m.max_redundancy_transition_history
      m.recovery_options.max_event_history m.topology_recovery_options

append-AreLinked :
    (log : List RedundancyTransition) (now : RedundancyState) (e : RedundancyTransition)
    → AreLinked log now
    → e.before ≡ now
    → e.before ≢ e.after
    → AreLinked (log ++ (e ∷ [])) e.after
append-AreLinked [] now e l starts moves = (moves, refl)
append-AreLinked (a ∷ []) now e l starts moves = (l.0, l.1 ∙ sym starts, (moves, refl))
append-AreLinked (a ∷ (b ∷ rest)) now e l starts moves =
    (l.0, l.1, append-AreLinked (b ∷ rest) now e l.2 starts moves)

drop-AreLinked :
    (n : ℕ) (log : List RedundancyTransition) (now : RedundancyState)
    → AreLinked log now
    → AreLinked (drop n log) now
drop-AreLinked zero log now l = l
drop-AreLinked (suc n) [] now l = tt
drop-AreLinked (suc n) (a ∷ []) now l = drop-AreLinked n [] now tt
drop-AreLinked (suc n) (a ∷ (b ∷ rest)) now l = drop-AreLinked n (b ∷ rest) now l.2

same_redundancy_refl : (a : RedundancyState) → same_redundancy a a ≡ true
unfolding same_redundancy
same_redundancy_refl primary_only = refl
same_redundancy_refl redundant_healthy = refl
same_redundancy_refl redundancy_degraded = refl
same_redundancy_refl recovering = refl

differs : (a b : RedundancyState) → same_redundancy a b ≡ false → a ≢ b
differs a b e same = cc (same_redundancy_refl a)

length-newest : {A : Type 0} (n : ℕ) (entries : List A) → length (newest n entries) ≤ n
length-newest n entries = omega (arith, length-drop (length entries - n) entries)

-- A transition of the redundancy state keeps the log linked and bounded.
pub transition_redundancy_state-IsSound :
    {T : Type 0} (target : RedundancyState) (reason : String) (generation : ℕ) (m : Master T)
    → IsSound m
    → IsSound (transition_redundancy_state target reason generation m)
unfolding transition_redundancy_state
transition_redundancy_state-IsSound target reason generation m s =
    if_cases IsSound (same_redundancy m.redundancy_status.state target) (λ same. s)
      (λ moves.
        let event = redundancy_transition target reason generation m in
        let events = m.redundancy_transitions ++ (event ∷ []) in
        let linked =
          append-AreLinked m.redundancy_transitions m.redundancy_status.state event s.linked refl
            (differs m.redundancy_status.state target moves) in
        record {
          linked =
              if_both (λ log. AreLinked log target)
                (ltb m.max_redundancy_transition_history (length events))
                (drop-AreLinked (length events - m.max_redundancy_transition_history) events target
                  linked)
                linked;
          bounded =
              if_cases
                (λ (log : List RedundancyTransition).
                  length log ≤ m.max_redundancy_transition_history)
                (ltb m.max_redundancy_transition_history (length events))
                (λ full. length-newest m.max_redundancy_transition_history events)
                (λ fits. ground (arith, fits));
          keeps_one = s.keeps_one;
          keeps_one_event = s.keeps_one_event;
          waits_missing = s.waits_missing;
          waits_hot_connect = s.waits_hot_connect;
          waits_redundancy = s.waits_redundancy;
        })

take_drop :
    {A : Type 0} (n : ℕ) (entries : List A) → (front : List A) × (entries ≡ front ++ drop n entries)
take_drop zero entries = ([], refl)
take_drop (suc n) [] = ([], refl)
take_drop (suc n) (e ∷ entries) = (e ∷ (take_drop n entries).0, ap (◌∷◌ e) (take_drop n entries).1)

-- Logging a recovery event keeps the log within its bound if it was, and what is dropped is the
-- oldest part: the old log with the new event is the dropped part followed by the new log.
append_recovery_event-newest :
    {T : Type 0} (e : RecoveryEvent) (m : Master T)
    → let after = append_recovery_event e m in
      (length after.recovery_events ≤ m.recovery_options.max_event_history)
      × ((dropped : List RecoveryEvent) × (m.recovery_events ++ (e ∷ [])
            ≡ dropped ++ after.recovery_events))
unfolding append_recovery_event
append_recovery_event-newest e m =
    let events = m.recovery_events ++ (e ∷ []) in
    let limit = m.recovery_options.max_event_history in
    (
      if_cases (λ (log : List RecoveryEvent). length log ≤ limit) (ltb limit (length events))
          (λ full. length-newest limit events) (λ fits. ground (arith, fits)),
      if_both
          (λ (log : List RecoveryEvent). (dropped : List RecoveryEvent) × (events ≡ dropped ++ log))
          (ltb limit (length events)) (take_drop (length events - limit) events) ([], refl),
    )
