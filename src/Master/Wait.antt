-- ===== src/Master/Wait.antt =====
-- The state transitions of src/master/ethercat_master.cpp, that ask for a state and then read it until
-- it is reached or the time is up. The steady clock is a parameter: it says how often the loop finds
-- it before the deadline. The sleep between two readings has no effect of its own.
use openethercat.Base.{
  ℕ, zero, suc, Bool, true, false, not, List, Option, none, some, String, ◌<>◌, if◌then◌else◌,
}
use openethercat.Base.Text.{to_string}
use openethercat.SlaveState.{SlaveState, same_state, state_name}
use openethercat.Transport.{Transport}
use openethercat.Master.{Master}
use openethercat.Master.Log.{set_error}

-- What the master runs with: the environment variables, the reading of numbers (`std::stoull` with base
-- 0), the number of rounds before a deadline, and the outputs that a callback for an input change sets
-- by name, for its number and the new value.
pub record Host (T : Type 0) : Type 0 where
  pub getenv : String → Option String
  pub stoull : String → Option ℕ
  pub polls : ℕ → T → ℕ
  pub reacts : ℕ → Bool → List (String × Bool)

module _ {T : Type 0} (io : Transport T) where
  -- The loop, with the reading and the two texts that differ between a network and a slave.
  unfoldable pub await :
      (T → T × Option SlaveState) → String → String → SlaveState → ℕ → Master T → Master T × Bool
  unfolding same_state state_name
  await read unreadable late target zero m = (set_error (late <> state_name target) m, false)
  await read unreadable late target (suc rounds) m =
      let (after, found) = read m.transport in
      let seen = record m { transport = after } in
      elim found [
        | none ↦ (set_error (unreadable <> io.last_error after) seen, false)
        | some state ↦ elim (same_state state target) [
          | true ↦ (seen, true)
          | false ↦ await read unreadable late target rounds seen
        ]
      ]

  unfoldable pub transition_network_to : Host T → SlaveState → Master T → Master T × Bool
  unfolding await state_name
  transition_network_to host target m =
      let (asked, ok) = io.request_network_state target m.transport in
      let after = record m { transport = asked } in
      if not ok
      then (
        set_error
            ("Failed to request state " <> (state_name target <> (": " <> io.last_error asked)))
            after,
        false,
      )
      else await io.read_network_state "Failed to read network state: " "Timeout waiting for state "
          target (host.polls m.state_machine_options.transition_timeout asked) after

  unfoldable pub transition_slave_to : Host T → ℕ → SlaveState → Master T → Master T × Bool
  unfolding await state_name to_string
  transition_slave_to host position target m =
      let (asked, ok) = io.request_slave_state position target m.transport in
      let after = record m { transport = asked } in
      if not ok
      then (
        set_error
            ("Failed to request slave "
              <> (to_string position
                  <> (" state " <> (state_name target <> (": " <> io.last_error asked)))))
            after,
        false,
      )
      else await (io.read_slave_state position)
          ("Failed to read slave state for position " <> (to_string position <> ": "))
          ("Timeout waiting for slave " <> (to_string position <> " state ")) target
          (host.polls m.state_machine_options.transition_timeout asked) after
