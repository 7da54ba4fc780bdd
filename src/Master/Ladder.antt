-- ===== src/Master/Ladder.antt =====
-- What a start that succeeds has seen of the network.
use openethercat.Base.{
  ℕ, zero, suc, ◌≡◌, refl, ap, ◌∙◌, inl, inr, Bool, true, false, not, Option, some, String,
  Option-cases, Bool-cases, if_both, if_cases,
}
use openethercat.SlaveState.{SlaveState, init, pre_op, safe_op, op, same_state, same_state_iff}
use openethercat.Transport.{Transport}
use openethercat.Master.{Master}
use openethercat.Master.Wait.{Host, await, transition_network_to}
use openethercat.Master.Environment.{configure_topology_recovery_from_environment, flag}
use openethercat.Master.Startup.{climb, ladder, start}

module _ {T : Type 0} (io : Transport T) (host : Host T) where
  -- The state `after` is what a reading left, and the reading gave the state asked for.
  abbrev HasRead : (T → T × Option SlaveState) → SlaveState → T → Type 0
  HasRead read target after =
      (before : T) × ((read before).0 ≡ after) × ((read before).1 ≡ some target)

  await-HasRead :
      (read : T → T × Option SlaveState) (unreadable late : String) (target : SlaveState)
      (rounds : ℕ) (m : Master T)
      → (await io read unreadable late target rounds m).1 ≡ true
      → HasRead read target (await io read unreadable late target rounds m).0.transport
  unfolding await
  await-HasRead read unreadable late target zero m = λ h. absurd (cc h)
  await-HasRead read unreadable late target (suc rounds) m =
      elim (Option-cases (read m.transport).1) [
        | inl e ↦ rw (e, await) (λ h. absurd (cc h))
        | inr (state, e) ↦ elim (Bool-cases (same_state state target)) [
          | inl hit ↦
              rw (e, await, hit)
                (λ h. (m.transport, refl, e ∙ ap some ((same_state_iff state target).0 hit)))
          | inr miss ↦
              rw (e, await, miss)
                (await-HasRead read unreadable late target rounds
                  (record m { transport = (read m.transport).0 }))
        ]
      ]

  abbrev Reached : SlaveState → Master T × Bool → Type 0
  Reached target r = r.1 ≡ true → HasRead io.read_network_state target r.0.transport

  transition_network_to-Reached :
      (target : SlaveState) (m : Master T) → Reached target (transition_network_to io host target m)
  unfolding transition_network_to
  transition_network_to-Reached target m =
      let asked = io.request_network_state target m.transport in
      if_both (Reached target) (not asked.1) (λ h. absurd (cc h))
        (await-HasRead io.read_network_state "Failed to read network state: "
          "Timeout waiting for state " target
          (host.polls m.state_machine_options.transition_timeout asked.0)
          (record m { transport = asked.0 }))

  climb-Reached :
      (first second : SlaveState) (m : Master T) → Reached second (climb host io first second m)
  unfolding climb
  climb-Reached first second m =
      let once = transition_network_to io host first m in
      if_both (Reached second) once.1 (transition_network_to-Reached second once.0)
        (λ h. absurd (cc h))

  -- A start that worked.
  abbrev pub IsUp : Master T → Type 0
  IsUp m = (m.started ≡ true) × (m.degraded ≡ false) × HasRead io.read_network_state op m.transport

  ladder-IsUp : (m : Master T) → (ladder host io m).1 ≡ true → IsUp (ladder host io m).0
  unfolding ladder
  ladder-IsUp m =
      let pre = climb host io init pre_op m in
      let mapped = io.configure_process_image pre.0.config "" pre.0.transport in
      let configured = record (pre.0) { transport = mapped.0 } in
      let up = climb host io safe_op op configured in
      let Works = λ (r : Master T × Bool). r.1 ≡ true → IsUp r.0 in
      if_both Works (not pre.1) (λ h. absurd (cc h))
        (if_both Works (not mapped.1.0) (λ h. absurd (cc h))
          (if_cases Works (not up.1) (λ fails h. absurd (cc h))
            (λ works h. (refl, refl, climb-Reached safe_op op configured (not_false up.1 works)))))
    where
      not_false : (b : Bool) → not b ≡ false → b ≡ true
      not_false true e = refl
      not_false false e = cc

  -- A start with the state machine enabled reports success only if the network was read in OP last, and
  -- then the master runs and is not degraded.
  pub start-IsUp :
      (m : Master T)
      → m.state_machine_options.enable ≡ true
      → (start host io m).1 ≡ true
      → IsUp (start host io m).0
  unfolding start
  start-IsUp m enabled =
      let opened = io.open_transport m.transport in
      let Works = λ (r : Master T × Bool). r.1 ≡ true → IsUp r.0 in
      let ready = configure_topology_recovery_from_environment host (record m {
        transport = opened.0;
        dc_closed_loop_enabled = flag host "OEC_DC_CLOSED_LOOP" m.dc_closed_loop_enabled;
      }) in
      if_both Works (not m.configured) (λ h. absurd (cc h))
        (if_both Works (not opened.1) (λ h. absurd (cc h))
          (if_cases Works m.state_machine_options.enable (λ e. ladder-IsUp ready)
            (λ e. absurd (cc (e, enabled)))))
