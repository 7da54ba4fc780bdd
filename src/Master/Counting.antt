-- ===== src/Master/Counting.antt =====
-- The statistics and the outputs over a cycle.
use openethercat.Base.{
  ℕ, ◌≡◌, refl, sym, ap, String, ◌∙◌, Bool, true, false, not, List, [], if_both, option_both, ◌<>◌,
  if◌then◌else◌,
}
use mathlib.Core.Path.{subst, ap₂}
use openethercat.Mapper.{dispatch_input_changes}
use openethercat.Topology.Manager.{next64}
use openethercat.Transport.{Transport}
use openethercat.Master.{Master}
use openethercat.Master.Log.{set_error}
use openethercat.Master.Wait.{Host}
use openethercat.Master.Recovery.{recover_network}
use openethercat.Master.Reactions.{store_calls, with_outputs, react-Stores}
use openethercat.Master.Kept.{IsKept, kept_equation, recover_network-IsKept}
use openethercat.Master.Cycle.{
  ended, receive, dispatch, run_dc_closed_loop_update, recover_from_failure, after_exchange,
  run_cycle,
}

-- What a cycle does to the counters and the image: every cycle is counted, a failed one once more, the
-- outputs are as they were but for what the callbacks it called have set, in the order of the calls,
-- and the configuration is as it was.
pub record IsCounted {T : Type 0} (host : Host T) (before : Master T)
    (r : Master T × (Bool × List (ℕ × Bool))) : Type 0 where
  pub total : r.0.statistics.cycles_total ≡ next64 before.statistics.cycles_total
  pub failed :
      r.0.statistics.cycles_failed
      ≡ (if r.1.0 then before.statistics.cycles_failed else next64 before.statistics.cycles_failed)
  pub outputs :
      r.0.image.output ≡ store_calls host.reacts before.mapper.bindings r.1.1 before.image.output
  pub config : r.0.config ≡ before.config

module _ {T : Type 0} where
  -- What the parts of a cycle leave alone.
  record IsUncounted (a b : Master T) : Type 0 where
    total : b.statistics.cycles_total ≡ a.statistics.cycles_total
    failed : b.statistics.cycles_failed ≡ a.statistics.cycles_failed
    outputs : b.image.output ≡ a.image.output
    config : b.config ≡ a.config
    bindings : b.mapper.bindings ≡ a.mapper.bindings

  failed-IsCounted :
      (host : Host T) (a b : Master T) → IsUncounted a b → IsCounted host a (ended false [] b)
  failed-IsCounted host a b u = record {
    total = ap next64 u.total;
    failed = ap next64 u.failed;
    outputs = u.outputs;
    config = u.config;
  }

  kept-IsUncounted : (a b : Master T) → IsKept a b → IsUncounted a b
  kept-IsUncounted a b k = record {
    total = ap (λ (x : Master T). x.statistics.cycles_total) (kept_equation a b k);
    failed = ap (λ (x : Master T). x.statistics.cycles_failed) (kept_equation a b k);
    outputs = ap (λ (x : Master T). x.image.output) (kept_equation a b k);
    config = ap (λ (x : Master T). x.config) (kept_equation a b k);
    bindings = ap (λ (x : Master T). x.mapper.bindings) (kept_equation a b k);
  }

  -- The callbacks have been called.
  reacted-IsCounted :
      (host : Host T) (a b : Master T) (ok : Bool) (calls : List (ℕ × Bool)) (error : String)
      → IsUncounted a b
      → IsCounted host a (
          ended ok calls
            (with_outputs (store_calls host.reacts b.mapper.bindings calls b.image.output) error b))
  reacted-IsCounted host a b true calls error u = record {
    total = ap next64 u.total;
    failed = u.failed;
    outputs = ap₂ (λ t o. store_calls host.reacts t calls o) u.bindings u.outputs;
    config = u.config;
  }
  reacted-IsCounted host a b false calls error u = record {
    total = ap next64 u.total;
    failed = ap next64 u.failed;
    outputs = ap₂ (λ t o. store_calls host.reacts t calls o) u.bindings u.outputs;
    config = u.config;
  }

  dispatch-IsCounted :
      (host : Host T) (a b : Master T) → IsUncounted a b → IsCounted host a (dispatch host b)
  unfolding dispatch
  dispatch-IsCounted host a b u =
      let (mapper, done) = dispatch_input_changes b.mapper b.image in
      let mapped = record b { mapper = mapper } in
      let (error, same) = react-Stores host.reacts done.calls mapped in
      let v : IsUncounted a mapped = record {
        total = u.total;
        failed = u.failed;
        outputs = u.outputs;
        config = u.config;
        bindings = u.bindings;
      } in
      option_both (IsCounted host a) done.thrown
        (subst (λ x. IsCounted host a (ended true done.calls x)) (sym same)
          (reacted-IsCounted host a mapped true done.calls error v))
        (λ message.
          subst
            (λ x.
              IsCounted host a (ended false done.calls (set_error ("Cycle failed: " <> message) x)))
            (sym same) (reacted-IsCounted host a mapped false done.calls _ v))

  dc-IsUncounted :
      (a b : Master T) → IsUncounted a b → IsUncounted a (run_dc_closed_loop_update b).0
  unfolding run_dc_closed_loop_update
  dc-IsUncounted a b u =
      if_both (λ (r : Master T × Bool). IsUncounted a r.0) (not b.dc_closed_loop_enabled) u
        (record {
          total = u.total;
          failed = u.failed;
          outputs = u.outputs;
          config = u.config;
          bindings = u.bindings;
        })

  trans : (a b c : Master T) → IsUncounted a b → IsUncounted b c → IsUncounted a c
  trans a b c u v = record {
    total = v.total ∙ u.total;
    failed = v.failed ∙ u.failed;
    outputs = v.outputs ∙ u.outputs;
    config = v.config ∙ u.config;
    bindings = v.bindings ∙ u.bindings;
  }

  module _ (io : Transport T) (host : Host T) where
    recovering_IsUncounted :
        (a b : Master T) → IsUncounted a b → IsUncounted a (recover_from_failure io host b)
    unfolding recover_from_failure
    recovering_IsUncounted a b u =
        let recovered = recover_network io host b in
        let after =
          trans a b recovered.0 u
            (kept-IsUncounted b recovered.0 (recover_network-IsKept io host b)) in
        if_both (IsUncounted a) b.recovery_options.enable
          (if_both (IsUncounted a) recovered.1 after (record {
            total = after.total;
            failed = after.failed;
            outputs = after.outputs;
            config = after.config;
            bindings = after.bindings;
          }))
          u

    -- Every cycle is counted in the total, and among the failures exactly if it reports failure; no
    -- cycle changes the configuration, nor the outputs but for what the callbacks that it calls set by
    -- name, in the order of the calls. A callback does nothing else to the master.
    pub run_cycle-IsCounted : (m : Master T) → IsCounted host m (run_cycle io host m)
    unfolding run_cycle after_exchange
    run_cycle-IsCounted m =
        let (after, received) = io.exchange m.image.output m.image.input m.transport in
        let exchanged = record m { transport = after } in
        let failing = set_error ("Transport exchange failed: " <> io.last_error after) exchanged in
        if_both (IsCounted host m) (not m.started)
          (failed-IsCounted host m (set_error "Master not started" m) (record {
            total = refl;
            failed = refl;
            outputs = refl;
            config = refl;
            bindings = refl;
          }))
          (option_both (IsCounted host m) received
            (failed-IsCounted host m (recover_from_failure io host failing) (
              recovering_IsUncounted m failing (record {
                total = refl;
                failed = refl;
                outputs = refl;
                config = refl;
                bindings = refl;
              })))
            (λ rx.
              let updated = receive rx (io.last_working_counter after) exchanged in
              if_both (IsCounted host m) (not (run_dc_closed_loop_update updated).1)
                (failed-IsCounted host m (run_dc_closed_loop_update updated).0 (
                  dc-IsUncounted m updated (record {
                    total = refl;
                    failed = refl;
                    outputs = refl;
                    config = refl;
                    bindings = refl;
                  })))
                (dispatch-IsCounted host m (run_dc_closed_loop_update updated).0 (
                  dc-IsUncounted m updated (record {
                    total = refl;
                    failed = refl;
                    outputs = refl;
                    config = refl;
                    bindings = refl;
                  })))))
