-- ===== src/Master/Starting.antt =====
-- Starting on the simulated network.
use openethercat.Base.{
  ℕ, zero, suc, ◌<◌, ◌≡◌, refl, sym, ap, ◌∙◌, Bool, true, false, not, Option, some, String, ◌<>◌,
  if_cases, if◌then◌else◌, arith,
}
use mathlib.Core.Path.{subst}
use openethercat.SlaveState.{SlaveState, init, pre_op, safe_op, op, same_state_iff, state_name}
use openethercat.Mock.{
  MockTransport, open_mock, request_network_state_mock, read_network_state_mock,
}
use openethercat.Mock.Services.{mock}
use openethercat.Master.{Master}
use openethercat.Master.Wait.{Host, await, transition_network_to}
use openethercat.Master.Log.{set_error}
use openethercat.Master.Environment.{configure_topology_recovery_from_environment, flag}
use openethercat.Master.Startup.{climb, ladder, running, start}

module _ (hash : String → ℕ) (host : Host MockTransport) where
  reads :
      (t : MockTransport) (target : SlaveState)
      → t.opened ≡ true
      → t.state ≡ target
      → read_network_state_mock t ≡ (t, some target)
  unfolding read_network_state_mock
  reads t target up at = ground arith

  requests :
      (t : MockTransport) (target : SlaveState)
      → t.opened ≡ true
      → request_network_state_mock target t ≡ (record t { state = target }, true)
  unfolding request_network_state_mock
  requests t target up = ground arith

  awaited :
      (unreadable late : String) (target : SlaveState) (rounds : ℕ) (m : Master MockTransport)
      → 0 < rounds
      → m.transport.opened ≡ true
      → m.transport.state ≡ target
      → await (mock hash) read_network_state_mock unreadable late target rounds m ≡ (m, true)
  unfolding await
  awaited unreadable late target zero m h up at = absurd (omega (arith, h))
  awaited unreadable late target (suc rounds) m h up at =
      rw (reads m.transport target up at, (same_state_iff target target).1 refl, await)
        (ap (λ (r : MockTransport × Option SlaveState). (record m { transport = r.0 }, true))
          (reads m.transport target up at))

  abbrev at : SlaveState → Master MockTransport → Master MockTransport
  at target m = record m { transport = record (m.transport) { state = target } }

  module _ (patient : (timeout : ℕ) (t : MockTransport) → 0 < host.polls timeout t) where
    reaches :
        (target : SlaveState) (m : Master MockTransport)
        → m.transport.opened ≡ true
        → transition_network_to (mock hash) host target m ≡ (at target m, true)
    unfolding transition_network_to mock
    reaches target m up =
        ap
          (λ (asked : MockTransport × Bool).
            if not asked.1
            then (
              set_error
                  ("Failed to request state "
                    <> (state_name target <> (": " <> MockTransport.error asked.0)))
                  (record m { transport = asked.0 }),
              false,
            )
            else await (mock hash) read_network_state_mock "Failed to read network state: "
                "Timeout waiting for state " target
                (host.polls m.state_machine_options.transition_timeout asked.0)
                (record m { transport = asked.0 }))
          (requests m.transport target up)
        ∙ awaited "Failed to read network state: " "Timeout waiting for state " target
            (host.polls m.state_machine_options.transition_timeout
              (record (m.transport) { state = target }))
            (at target m) (patient _ _) up refl

    climbs :
        (first second : SlaveState) (m : Master MockTransport)
        → m.transport.opened ≡ true
        → climb host (mock hash) first second m ≡ (at second m, true)
    unfolding climb
    climbs first second m up =
        ap
          (λ (r : Master MockTransport × Bool).
            if r.1 then transition_network_to (mock hash) host second r.0 else (r.0, false))
          (reaches first m up)
        ∙ reaches second (at first m) up

    ladder_up :
        (m : Master MockTransport)
        → m.transport.opened ≡ true
        → ladder host (mock hash) m ≡ (running host (mock hash) (at op m), true)
    unfolding ladder mock
    ladder_up m up = rw (climbs init pre_op m up) (rw (climbs safe_op op (at pre_op m) up) refl)

    -- The master runs on an open network in OP.
    abbrev pub RunsInOp : Master MockTransport × Bool → Type 0
    RunsInOp r =
        (r.1 ≡ true)
        × (r.0.started ≡ true)
        × (r.0.transport.opened ≡ true)
        × (r.0.transport.state ≡ op)

    ladder-RunsInOp :
        (m : Master MockTransport)
        → m.transport.opened ≡ true
        → RunsInOp (ladder host (mock hash) m)
    ladder-RunsInOp m up = subst RunsInOp (sym (ladder_up m up)) (refl, refl, up, refl)

    -- On the simulated network, a start of a configured master with the state machine enabled succeeds
    -- if the clock lets every wait read at least once, and leaves the master running and the network
    -- open and in OP, whatever the state before.
    pub start-RunsInOp :
        (m : Master MockTransport)
        → m.configured ≡ true
        → m.state_machine_options.enable ≡ true
        → RunsInOp (start host (mock hash) m)
    unfolding start mock open_mock configure_topology_recovery_from_environment
    start-RunsInOp m configured enabled =
        let opened = open_mock m.transport in
        let ready = configure_topology_recovery_from_environment host (record m {
          transport = opened.0;
          dc_closed_loop_enabled = flag host "OEC_DC_CLOSED_LOOP" m.dc_closed_loop_enabled;
        }) in
        if_cases RunsInOp (not m.configured) (λ e. absurd (cc (e, configured)))
          (λ _.
            if_cases RunsInOp m.state_machine_options.enable (λ _. ladder-RunsInOp ready refl)
              (λ e. absurd (cc (e, enabled))))
