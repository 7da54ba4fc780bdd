-- ===== src/Master/Simulated.antt =====
-- The master's cycle on the simulated network.
use openethercat.Base.{
  ℕ, ◌≡◌, refl, sym, Bool, true, false, not, List, [], some, String, length, option_both, if_both,
  if_cases, arith,
}
use mathlib.Core.Path.{subst}
use openethercat.Mapper.{dispatch_input_changes}
use openethercat.Mock.{MockTransport, exchange_mock}
use openethercat.Mock.Services.{mock}
use openethercat.Master.{Master}
use openethercat.Master.Reactions.{react-Stores}
use openethercat.Master.Wait.{Host}
use openethercat.Master.Cycle.{
  receive, ended, react, dispatch, run_dc_closed_loop_update, after_exchange, run_cycle,
}

-- The images changed hands: the network has the outputs, and the master the inputs.
pub record Exchanged (before after : Master MockTransport) : Type 0 where
  pub outputs : after.transport.last_outputs ≡ before.image.output
  pub inputs : after.image.input ≡ before.transport.inputs
  pub working_counter : after.statistics.last_working_counter ≡ 1

module _ (hash : String → ℕ) (host : Host MockTransport) where
  exchanged_by_mock :
      (tx rx : List ℕ) (m : MockTransport)
      → m.opened ≡ true
      → m.remaining_exchange_failures ≡ 0
      → length tx ≡ length m.last_outputs
      → exchange_mock tx rx m
        ≡ (record m { last_outputs = tx; last_working_counter = 1 }, some m.inputs)
  unfolding exchange_mock
  exchanged_by_mock tx rx m up clean size = ground arith

  closed_loop-Exchanged :
      (a b : Master MockTransport) → Exchanged a b → Exchanged a (run_dc_closed_loop_update b).0
  unfolding run_dc_closed_loop_update
  closed_loop-Exchanged a b e =
      if_both (λ (r : Master MockTransport × Bool). Exchanged a r.0) (not b.dc_closed_loop_enabled)
        e (record { outputs = e.outputs; inputs = e.inputs; working_counter = e.working_counter })

  ended-Exchanged : (a b : Master MockTransport) → Exchanged a b → Exchanged a (ended false [] b).0
  ended-Exchanged a b e = record {
    outputs = e.outputs;
    inputs = e.inputs;
    working_counter = e.working_counter;
  }

  react-Exchanged :
      (a b : Master MockTransport) (calls : List (ℕ × Bool))
      → Exchanged a b
      → Exchanged a (react host.reacts calls b)
  react-Exchanged a b calls e =
      let (error, same) = react-Stores host.reacts calls b in
      subst (Exchanged a) (sym same)
        (record { outputs = e.outputs; inputs = e.inputs; working_counter = e.working_counter })

  dispatch-Exchanged :
      (a b : Master MockTransport) → Exchanged a b → Exchanged a (dispatch host b).0
  unfolding dispatch
  dispatch-Exchanged a b e =
      let (mapper, done) = dispatch_input_changes b.mapper b.image in
      let r =
        react-Exchanged a (record b { mapper = mapper }) done.calls
          (record {
            outputs = e.outputs;
            inputs = e.inputs;
            working_counter = e.working_counter;
          }) in
      option_both (λ (r : Master MockTransport × (Bool × List (ℕ × Bool))). Exchanged a r.0)
        done.thrown
        (record { outputs = r.outputs; inputs = r.inputs; working_counter = r.working_counter })
        (λ message. record {
          outputs = r.outputs;
          inputs = r.inputs;
          working_counter = r.working_counter;
        })

  after_exchange-Exchanged :
      (m : Master MockTransport)
      → Exchanged m
          (after_exchange (mock hash) host m (
            record (m.transport) { last_outputs = m.image.output; last_working_counter = 1 },
            some m.transport.inputs,
          )).0
  unfolding after_exchange mock receive
  after_exchange-Exchanged m =
      let updated = receive m.transport.inputs 1 (record m {
        transport = record (m.transport) {
          last_outputs = m.image.output;
          last_working_counter = 1;
        };
      }) in
      if_both (λ (r : Master MockTransport × (Bool × List (ℕ × Bool))). Exchanged m r.0)
        (not (run_dc_closed_loop_update updated).1)
        (ended-Exchanged m (run_dc_closed_loop_update updated).0 (
          closed_loop-Exchanged m updated
            (record { outputs = refl; inputs = refl; working_counter = refl })))
        (dispatch-Exchanged m (run_dc_closed_loop_update updated).0 (
          closed_loop-Exchanged m updated
            (record { outputs = refl; inputs = refl; working_counter = refl })))

  -- A cycle of a started master on an open simulated network with images of one size and no failure
  -- injected hands the outputs to the network and the network's inputs to the master, whatever the
  -- mapper and the distributed clock's option then make of the cycle.
  pub run_cycle-Exchanged :
      (m : Master MockTransport)
      → m.started ≡ true
      → m.transport.opened ≡ true
      → m.transport.remaining_exchange_failures ≡ 0
      → length m.image.output ≡ length m.transport.last_outputs
      → Exchanged m (run_cycle (mock hash) host m).0
  unfolding run_cycle mock
  run_cycle-Exchanged m started up clean size =
      if_cases (λ (r : Master MockTransport × (Bool × List (ℕ × Bool))). Exchanged m r.0)
        (not m.started) (λ e. absurd (cc (e, started)))
        (λ _.
          rw (exchanged_by_mock m.image.output m.image.input m.transport up clean size)
            (after_exchange-Exchanged m))
