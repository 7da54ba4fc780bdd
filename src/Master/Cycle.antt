-- ===== src/Master/Cycle.antt =====
-- One cycle, and the access to the process image, in src/master/ethercat_master.cpp, on a transport that
-- is not `LinuxRawSocketTransport`. The calls of callbacks are a result; what a callback does here is to
-- set outputs by name (`Host.reacts`).
use openethercat.Base.{
  ℕ, ◌+◌, ◌-◌, Bool, true, false, not, ◌||◌, List, [], ◌∷◌, ◌++◌, Option, none, some, String, ◌<>◌,
  if◌then◌else◌, ltb, length, take, drop,
}
use openethercat.Base.Bytes.{slice}
use openethercat.Base.Checked.{Checked, returns, throws}
use openethercat.Image.{ProcessImage}
use openethercat.Mapper.{set_output, get_input, register_input_callback, dispatch_input_changes}
use openethercat.Topology.Manager.{next64}
use openethercat.Transport.{Transport}
use openethercat.Master.{Master, CycleStatistics, RedundancyState, redundancy_degraded, recovering}
use openethercat.Master.Log.{set_error, same_redundancy}
use openethercat.Master.Recovery.{recover_network}
use openethercat.Master.Wait.{Host}

abbrev count_cycle : Bool → CycleStatistics → CycleStatistics
count_cycle ok s = record s {
  cycles_total = next64 s.cycles_total;
  cycles_failed = if ok then s.cycles_failed else next64 s.cycles_failed;
}

abbrev pub is_impacted : RedundancyState → Bool
unfolding same_redundancy
is_impacted s = same_redundancy s redundancy_degraded || same_redundancy s recovering

module _ {T : Type 0} where
  -- The end of a cycle.
  abbrev pub ended : Bool → List (ℕ × Bool) → Master T → Master T × (Bool × List (ℕ × Bool))
  ended ok calls m = (record m { statistics = count_cycle ok m.statistics }, (ok, calls))

  -- After an exchange: the inputs, the working counter, the cycles that a fault touches.
  unfoldable pub receive : List ℕ → ℕ → Master T → Master T
  receive rx working_counter m = record m {
    image = record (m.image) { input = rx };
    statistics = record (m.statistics) { last_working_counter = working_counter };
    redundancy_kpis = record (m.redundancy_kpis) {
      impacted_cycles =
          if is_impacted m.redundancy_status.state
          then next64 m.redundancy_kpis.impacted_cycles
          else m.redundancy_kpis.impacted_cycles;
    };
  }

  -- What is made of the mapper's answer.
  abbrev pub output_result : String → Master T → Checked (ProcessImage × Bool) → Master T × Bool
  output_result name m (throws message) = (set_error ("Set output failed: " <> message) m, false)
  output_result name m (returns (image, ok)) =
      if not ok
      then (set_error ("Unknown output signal or wrong direction: " <> name) m, false)
      else (record m { image = image }, true)

  unfoldable pub set_output_by_name : String → Bool → Master T → Master T × Bool
  unfolding set_output
  set_output_by_name name value m = output_result name m (set_output m.mapper m.image name value)

  -- The outputs that one callback sets, and those of all the calls of a dispatch. A call of
  -- `setOutputByName` touches neither the inputs nor the mapper, so that it may as well come after the
  -- loop that makes the calls.
  unfoldable pub set_all : List (String × Bool) → Master T → Master T
  unfolding set_output_by_name
  set_all [] m = m
  set_all ((name, value) ∷ rest) m = set_all rest (set_output_by_name name value m).0

  unfoldable pub react : (ℕ → Bool → List (String × Bool)) → List (ℕ × Bool) → Master T → Master T
  unfolding set_all
  react reacts [] m = m
  react reacts ((callback, value) ∷ calls) m =
      react reacts calls (set_all (reacts callback value) m)

  unfoldable pub dispatch : Host T → Master T → Master T × (Bool × List (ℕ × Bool))
  unfolding dispatch_input_changes react
  dispatch host m =
      let (mapper, done) = dispatch_input_changes m.mapper m.image in
      let after = react host.reacts done.calls (record m { mapper = mapper }) in
      elim done.thrown [
        | some message ↦ ended false done.calls (set_error ("Cycle failed: " <> message) after)
        | none ↦ ended true done.calls after
      ]

  -- With no `LinuxRawSocketTransport` the closed loop of the distributed clock fails if it is on.
  unfoldable pub run_dc_closed_loop_update : Master T → Master T × Bool
  run_dc_closed_loop_update m =
      if not m.dc_closed_loop_enabled
      then (m, true)
      else (set_error "DC closed-loop requires LinuxRawSocketTransport" m, false)

  module _ (io : Transport T) (host : Host T) where
    -- The recovery that a failed exchange starts.
    unfoldable pub recover_from_failure : Master T → Master T
    unfolding recover_network
    recover_from_failure m =
        if m.recovery_options.enable
        then (let (after, recovered) = recover_network io host m in
            if recovered then after else set_error (after.error <> " | recovery failed") after)
        else m

    -- The rest of a cycle, from the result of the exchange.
    unfoldable pub after_exchange :
        Master T → T × Option (List ℕ) → Master T × (Bool × List (ℕ × Bool))
    unfolding recover_from_failure receive run_dc_closed_loop_update dispatch
    after_exchange m (after, received) =
        let exchanged = record m { transport = after } in
        elim received [
          | none ↦ ended false [] (
              recover_from_failure
                (set_error ("Transport exchange failed: " <> io.last_error after) exchanged))
          | some rx ↦
              let (updated, ok) =
                run_dc_closed_loop_update (receive rx (io.last_working_counter after) exchanged) in
              if not ok then ended false [] updated else dispatch host updated
        ]

    unfoldable pub run_cycle : Master T → Master T × (Bool × List (ℕ × Bool))
    unfolding after_exchange
    run_cycle m =
        if not m.started
        then ended false [] (set_error "Master not started" m)
        else after_exchange m (io.exchange m.image.output m.image.input m.transport)

  unfoldable pub get_input_by_name : String → Master T → Option Bool
  unfolding get_input
  get_input_by_name name m = elim (get_input m.mapper m.image name) [
    | throws message ↦ none
    | returns value ↦ value
  ]

  unfoldable pub write_output_bytes : ℕ → List ℕ → Master T → Master T × Bool
  write_output_bytes offset written m =
      if ltb (length m.image.output) offset
      then (set_error "writeOutputBytes byteOffset out of range" m, false)
      else if ltb (length m.image.output - offset) (length written)
      then (set_error "writeOutputBytes size out of range" m, false)
      else (
        record m {
          image = record (m.image) {
            output =
                take offset m.image.output
                ++ (written ++ drop (offset + length written) m.image.output);
          };
        },
        true,
      )

  -- `over` stands for reads past the end, of which there are none.
  unfoldable read_input_bytes : (ℕ → ℕ) → ℕ → ℕ → Master T → Option (List ℕ)
  unfolding slice
  read_input_bytes over offset size m =
      if ltb (length m.image.input) offset
      then none
      else if ltb (length m.image.input - offset) size
      then none
      else some (slice over m.image.input offset size)

  unfoldable pub on_input_change : String → ℕ → Master T → Master T × Bool
  unfolding register_input_callback
  on_input_change name callback m =
      let (mapper, ok) = register_input_callback m.mapper name callback in
      let after = record m { mapper = mapper } in
      if not ok
      then (set_error ("Unknown input signal or wrong direction: " <> name) after, false)
      else (after, true)
