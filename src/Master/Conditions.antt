-- ===== src/Master/Conditions.antt =====
-- The topology policy's three conditions: their counters and latches, without the master around them.
use openethercat.Base.{
  ℕ, ◌≡◌, refl, ap, ◌∙◌, Bool, true, false, not, ◌&&◌, ◌||◌, if◌then◌else◌, leb,
}
use openethercat.Topology.Manager.{next64}
use openethercat.Master.{Master, TopologyRecoveryOptions}

-- What the policy knows of its three conditions.
pub record Conditions : Type 0 where
  pub missing_cycles : ℕ
  pub hot_connect_cycles : ℕ
  pub redundancy_cycles : ℕ
  pub missing_latched : Bool
  pub hot_connect_latched : Bool
  pub redundancy_latched : Bool

abbrev pub conditions : {T : Type 0} → Master T → Conditions
conditions m = record {
  missing_cycles = m.missing_condition_cycles;
  hot_connect_cycles = m.hot_connect_condition_cycles;
  redundancy_cycles = m.redundancy_condition_cycles;
  missing_latched = m.missing_policy_latched;
  hot_connect_latched = m.hot_connect_policy_latched;
  redundancy_latched = m.redundancy_policy_latched;
}

-- The counter of a condition after one more scan, and its latch.
abbrev pub counted : Bool → ℕ → ℕ
counted holds cycles = if holds then next64 cycles else 0

abbrev pub latched : Bool → ℕ → ℕ → Bool → Bool
latched holds grace cycles before = holds && (before || leb grace (counted holds cycles))

-- The conditions after a scan in which some of them hold.
abbrev pub next_conditions : TopologyRecoveryOptions → Bool → Bool → Bool → Conditions → Conditions
next_conditions o missing hot_connected down c = record {
  missing_cycles = counted missing c.missing_cycles;
  hot_connect_cycles = counted hot_connected c.hot_connect_cycles;
  redundancy_cycles = counted down c.redundancy_cycles;
  missing_latched = latched missing o.missing_grace_cycles c.missing_cycles c.missing_latched;
  hot_connect_latched =
      latched hot_connected o.hot_connect_grace_cycles c.hot_connect_cycles c.hot_connect_latched;
  redundancy_latched =
      latched down o.redundancy_grace_cycles c.redundancy_cycles c.redundancy_latched;
}

-- What the answers do to the latches.
abbrev fire : Bool → ℕ → ℕ → Bool → Bool
fire holds grace cycles before = (holds && not before && leb grace cycles) || before

abbrev pub View : Type 0
View = TopologyRecoveryOptions × Conditions

abbrev pub fire_missing : Bool → View → View
fire_missing holds (o, c) = (
  o,
  record c {
    missing_latched = fire holds o.missing_grace_cycles c.missing_cycles c.missing_latched;
  },
)

abbrev pub fire_hot_connect : Bool → View → View
fire_hot_connect holds (o, c) = (
  o,
  record c {
    hot_connect_latched =
        fire holds o.hot_connect_grace_cycles c.hot_connect_cycles c.hot_connect_latched;
  },
)

abbrev pub fire_redundancy : Bool → View → View
fire_redundancy holds (o, c) = (
  o,
  record c {
    redundancy_latched =
        fire holds o.redundancy_grace_cycles c.redundancy_cycles c.redundancy_latched;
  },
)

fire-latched :
    (holds reached before : Bool)
    → ((holds && not (if holds then before else false) && reached)
        || (if holds then before else false))
      ≡ (holds && (before || reached))
fire-latched true true true = refl
fire-latched true true false = refl
fire-latched true false true = refl
fire-latched true false false = refl
fire-latched false reached before = refl

-- The same for a condition that is the absence of something.
fire-latched_not :
    (absent reached before : Bool)
    → ((not absent && not (if absent then false else before) && reached)
        || (if absent then false else before))
      ≡ (not absent && (before || reached))
fire-latched_not false true true = refl
fire-latched_not false true false = refl
fire-latched_not false false true = refl
fire-latched_not false false false = refl
fire-latched_not true reached before = refl

counted-not : (absent : Bool) (n : ℕ) → (if absent then 0 else next64 n) ≡ counted (not absent) n
counted-not true n = refl
counted-not false n = refl

-- The answers after the counting are the description above.
pub algebra :
    (o : TopologyRecoveryOptions) (missing hot_connected healthy : Bool) (c : Conditions)
    → (fire_redundancy (not healthy) (
        fire_hot_connect hot_connected (
          fire_missing missing (
            o,
            record {
              missing_cycles = counted missing c.missing_cycles;
              hot_connect_cycles = counted hot_connected c.hot_connect_cycles;
              redundancy_cycles = if healthy then 0 else next64 c.redundancy_cycles;
              missing_latched = if missing then c.missing_latched else false;
              hot_connect_latched = if hot_connected then c.hot_connect_latched else false;
              redundancy_latched = if healthy then false else c.redundancy_latched;
            },
          )))).1
      ≡ next_conditions o missing hot_connected (not healthy) c
algebra o missing hot_connected healthy c = λ i. record {
  missing_cycles = counted missing c.missing_cycles;
  hot_connect_cycles = counted hot_connected c.hot_connect_cycles;
  redundancy_cycles = counted-not healthy c.redundancy_cycles i;
  missing_latched =
      fire-latched missing (leb o.missing_grace_cycles (counted missing c.missing_cycles))
        c.missing_latched i;
  hot_connect_latched =
      fire-latched hot_connected
        (leb o.hot_connect_grace_cycles (counted hot_connected c.hot_connect_cycles))
        c.hot_connect_latched i;
  redundancy_latched =
      (fire-latched_not healthy
            (leb o.redundancy_grace_cycles (if healthy then 0 else next64 c.redundancy_cycles))
            c.redundancy_latched
          ∙ ap (λ k. not healthy && (c.redundancy_latched || leb o.redundancy_grace_cycles k))
              (counted-not healthy c.redundancy_cycles))
        i;
}
