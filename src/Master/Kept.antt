-- ===== src/Master/Kept.antt =====
-- What recovery leaves as it was: all but the transport, the diagnostics, the events, the counts of
-- attempts, and the flags and the text that say how it went.
use openethercat.Base.{
  ℕ, zero, suc, ◌≡◌, refl, ap, ◌∙◌, inl, inr, Bool, true, false, not, List, [], ◌∷◌, Option, String,
  ◌<>◌, Option-cases, Bool-cases, if_both,
}
use openethercat.Base.Maps.{put, nat_key}
use openethercat.Base.Text.{to_string}
use openethercat.Diagnostics.{no_action, retry_transition, reconfigure, failover, SlaveDiagnostic}
use openethercat.SlaveState.{SlaveState, same_state, op}
use openethercat.Topology.Manager.{next64}
use openethercat.Transport.{Transport}
use openethercat.Master.{Master, RecoveryEvent}
use openethercat.Master.Log.{set_error, append_recovery_event}
use openethercat.Master.Wait.{Host, await, transition_slave_to, transition_network_to}
use openethercat.Master.Recovery.{
  is_no_action, count, logged, try_retry, try_reconfigure, try_failover, recover_slave,
  recover_each, collect_slave_diagnostics, recover_network, is_nil,
}

module _ {T : Type 0} where
  -- The first master with what recovery changes taken from the second.
  abbrev overlay : Master T → Master T → Master T
  overlay a b = record a {
    transport = b.transport;
    started = b.started;
    last_diagnostics = b.last_diagnostics;
    recovery_events = b.recovery_events;
    retry_counts = b.retry_counts;
    reconfigure_counts = b.reconfigure_counts;
    degraded = b.degraded;
    error = b.error;
  }

  pub IsKept : Master T → Master T → Type 0
  IsKept a b = b ≡ overlay a b

  pub kept_equation : (a b : Master T) → IsKept a b → b ≡ overlay a b
  unfolding IsKept
  kept_equation a b e = e

  IsKept-refl : (a : Master T) → IsKept a a
  unfolding IsKept
  IsKept-refl a = refl

  IsKept-trans : (a b c : Master T) → IsKept a b → IsKept b c → IsKept a c
  unfolding IsKept
  IsKept-trans a b c e f = f ∙ ap (λ (x : Master T). overlay x c) e

  overlay-IsKept : (a b : Master T) → IsKept a (overlay a b)
  unfolding IsKept
  overlay-IsKept a b = refl

  append_recovery_event-IsKept :
      (e : RecoveryEvent) (a : Master T) → IsKept a (append_recovery_event e a)
  unfolding IsKept append_recovery_event
  append_recovery_event-IsKept e a = refl

  logged-IsKept :
      (d : SlaveDiagnostic) (n : ℕ) (message : String) (a : Master T) (r : Master T × Bool)
      → IsKept a r.0
      → IsKept a (logged d n message r).0
  unfolding logged
  logged-IsKept d n message a r e = IsKept-trans a r.0 _ e (append_recovery_event-IsKept _ r.0)

  module _ (io : Transport T) (host : Host T) where
    await-IsKept :
        (read : T → T × Option SlaveState) (unreadable late : String) (target : SlaveState)
        (rounds : ℕ) (m : Master T)
        → IsKept m (await io read unreadable late target rounds m).0
    unfolding await
    await-IsKept read unreadable late target zero m = overlay-IsKept m (set_error _ m)
    await-IsKept read unreadable late target (suc rounds) m =
        elim (Option-cases (read m.transport).1) [
          | inl e ↦
              rw (e, await)
                (overlay-IsKept m (set_error _ (record m { transport = (read m.transport).0 })))
          | inr (state, e) ↦ elim (Bool-cases (same_state state target)) [
            | inl hit ↦
                rw (e, await, hit)
                  (overlay-IsKept m (record m { transport = (read m.transport).0 }))
            | inr miss ↦
                rw (e, await, miss)
                  (IsKept-trans m (record m { transport = (read m.transport).0 }) _
                    (overlay-IsKept m (record m { transport = (read m.transport).0 }))
                    (await-IsKept read unreadable late target rounds
                      (record m { transport = (read m.transport).0 })))
          ]
        ]

    transition_slave_to-IsKept :
        (position : ℕ) (target : SlaveState) (m : Master T)
        → IsKept m (transition_slave_to io host position target m).0
    unfolding transition_slave_to
    transition_slave_to-IsKept position target m =
        let asked = io.request_slave_state position target m.transport in
        elim (Bool-cases asked.1) [
          | inl ok ↦
              rw (ok, transition_slave_to)
                (IsKept-trans m (record m { transport = asked.0 }) _
                  (overlay-IsKept m (record m { transport = asked.0 }))
                  (await-IsKept (io.read_slave_state position)
                    ("Failed to read slave state for position " <> (to_string position <> ": "))
                    ("Timeout waiting for slave " <> (to_string position <> " state ")) target
                    (host.polls m.state_machine_options.transition_timeout asked.0)
                    (record m { transport = asked.0 })))
          | inr refused ↦
              rw (refused, transition_slave_to)
                (overlay-IsKept m (set_error _ (record m { transport = asked.0 })))
        ]

    pub transition_network_to-IsKept :
        (target : SlaveState) (m : Master T) → IsKept m (transition_network_to io host target m).0
    unfolding transition_network_to
    transition_network_to-IsKept target m =
        let asked = io.request_network_state target m.transport in
        elim (Bool-cases asked.1) [
          | inl ok ↦
              rw (ok, transition_network_to)
                (IsKept-trans m (record m { transport = asked.0 }) _
                  (overlay-IsKept m (record m { transport = asked.0 }))
                  (await-IsKept io.read_network_state "Failed to read network state: "
                    "Timeout waiting for state " target
                    (host.polls m.state_machine_options.transition_timeout asked.0)
                    (record m { transport = asked.0 })))
          | inr refused ↦
              rw (refused, transition_network_to)
                (overlay-IsKept m (set_error _ (record m { transport = asked.0 })))
        ]

    try_retry-IsKept : (d : SlaveDiagnostic) (m : Master T) → IsKept m (try_retry io host d m).0
    unfolding try_retry
    try_retry-IsKept d m =
        let counted = record m {
          retry_counts =
              put d.identity.position (next64 (count d.identity.position m.retry_counts))
                m.retry_counts;
        } in
        logged-IsKept d m.statistics.cycles_total "Retry transition to OP succeeded" m
          (transition_slave_to io host d.identity.position op counted)
          (IsKept-trans m counted _ (overlay-IsKept m counted)
            (transition_slave_to-IsKept d.identity.position op counted))

    try_reconfigure-IsKept :
        (d : SlaveDiagnostic) (m : Master T) → IsKept m (try_reconfigure io host d m).0
    unfolding try_reconfigure
    try_reconfigure-IsKept d m =
        let asked = io.reconfigure_slave d.identity.position m.transport in
        let counted = record m {
          transport = asked.0;
          reconfigure_counts =
              put d.identity.position (next64 (count d.identity.position m.reconfigure_counts))
                m.reconfigure_counts;
        } in
        elim (Bool-cases asked.1) [
          | inl ok ↦
              rw (ok, try_reconfigure)
                (logged-IsKept d m.statistics.cycles_total
                  "Reconfigure + transition to OP succeeded" m
                  (transition_slave_to io host d.identity.position op counted)
                  (IsKept-trans m counted _ (overlay-IsKept m counted)
                    (transition_slave_to-IsKept d.identity.position op counted)))
          | inr refused ↦
              rw (refused, try_reconfigure)
                (logged-IsKept d m.statistics.cycles_total "" m (set_error _ counted, false)
                  (overlay-IsKept m (set_error _ counted)))
        ]

    try_failover-IsKept : (d : SlaveDiagnostic) (m : Master T) → IsKept m (try_failover io d m).0
    unfolding try_failover
    try_failover-IsKept d m =
        let asked = io.failover_slave d.identity.position m.transport in
        let degraded = record m { transport = asked.0; degraded = true } in
        if_both (λ (r : Master T × Bool). IsKept m r.0) (not asked.1)
          (logged-IsKept d m.statistics.cycles_total "" m
            (set_error _ (record m { transport = asked.0 }), false)
            (overlay-IsKept m (set_error _ (record m { transport = asked.0 }))))
          (if_both (λ (r : Master T × Bool). IsKept m r.0)
            m.recovery_options.stop_master_on_failover
            (logged-IsKept d m.statistics.cycles_total _ m
              (
                set_error _
                    (record degraded { transport = io.close_transport asked.0; started = false }),
                true,
              )
              (overlay-IsKept m (
                set_error _
                  (record degraded { transport = io.close_transport asked.0; started = false }))))
            (logged-IsKept d m.statistics.cycles_total "Slave moved to failover/degraded mode" m
              (degraded, true) (overlay-IsKept m degraded)))

    recover_slave-IsKept :
        (d : SlaveDiagnostic) (m : Master T) → IsKept m (recover_slave io host d m).0
    unfolding recover_slave
    recover_slave-IsKept d m =
        elim d.suggested_action
          as (λ a. IsKept m (recover_slave io host (record d { suggested_action = a }) m).0) [
            | no_action ↦
                logged-IsKept (record d { suggested_action = no_action }) m.statistics.cycles_total
                  "No recovery needed" m (m, true) (IsKept-refl m)
            | retry_transition ↦
                try_retry-IsKept (record d { suggested_action = retry_transition }) m
            | reconfigure ↦ try_reconfigure-IsKept (record d { suggested_action = reconfigure }) m
            | failover ↦ try_failover-IsKept (record d { suggested_action = failover }) m
          ]

    recover_each-IsKept :
        (rest : List SlaveDiagnostic) (recovered_any : Bool) (m : Master T)
        → IsKept m (recover_each io host rest recovered_any m).0
    unfolding recover_each
    recover_each-IsKept [] recovered_any m = IsKept-refl m
    recover_each-IsKept (d ∷ rest) recovered_any m =
        elim (Bool-cases (is_no_action d.suggested_action)) [
          | inl skip ↦ rw (skip, recover_each) (recover_each-IsKept rest recovered_any m)
          | inr acts ↦
              rw (acts, recover_each)
                (IsKept-trans m (recover_slave io host d m).0 _ (recover_slave-IsKept d m)
                  (recover_each-IsKept rest _ (recover_slave io host d m).0))
        ]

    -- Recovering the network keeps the configuration, the image, the mapper, the statistics, the
    -- options, and the state of the topology policy and of the redundancy.
    pub recover_network-IsKept : (m : Master T) → IsKept m (recover_network io host m).0
    unfolding recover_network
    recover_network-IsKept m =
        let diagnosed = (collect_slave_diagnostics io m).0 in
        if_both (λ (r : Master T × Bool). IsKept m r.0) (is_nil (collect_slave_diagnostics io m).1)
          (overlay-IsKept m (set_error _ diagnosed))
          (IsKept-trans m diagnosed _ (overlay-IsKept m diagnosed)
            (recover_each-IsKept (collect_slave_diagnostics io m).1 false diagnosed))
