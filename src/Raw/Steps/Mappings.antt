-- ===== src/Raw/Steps/Mappings.antt =====
-- The accesses that configure the process image as sequences of steps.
use openethercat.Base.{
  ℕ, ◌+◌, ◌*◌, ◌%◌, not, List, [], ◌∷◌, false, String, ◌==◌, if_both, replicate, option_both,
}
use openethercat.Config.{SignalBinding, SignalDirection, input}
use openethercat.Raw.{RawTransport, System}
use openethercat.Raw.Datagram.{command_aprd, command_apwr, to_auto_increment_address}
use openethercat.Raw.Download.{configure_pdo_raw}
use openethercat.Raw.Mapping.{
  Progress, fmmu_bytes, map_window, map_slave, map_slaves, read_sm, write_block, sm_bytes,
  direct_fallback, fallback,
}
use openethercat.Raw.Signals.{
  signals_at, sm_of, control_of, assign_of, estimated_length, build_default_entries,
}
use openethercat.Raw.Steps.{
  Steps, none_yet, Steps-trans, StepsTo, stepped_to, then_to, outcome_both,
}
use openethercat.Raw.Steps.Datagrams.{send_next-StepsTo}
use openethercat.Raw.Steps.Downloads.{configure_pdo_raw-StepsTo}
use openethercat.Raw.SyncManagers.{SmWindow, register_sm_base}

module _ {N : Type 0} (sys : System N) (over : ℕ → ℕ) where
  pub read_sm-StepsTo :
      (position sm : ℕ) (t : RawTransport N) → StepsTo sys t (read_sm sys over position sm t)
  unfolding read_sm
  read_sm-StepsTo position sm t =
      stepped_to sys
        (send_next-StepsTo sys over command_aprd (to_auto_increment_address position)
          ((register_sm_base + sm * 8) % 65536) (replicate 8 0) t).stepped

  pub write_block-StepsTo :
      (position ado : ℕ) (bytes : List ℕ) (t : RawTransport N)
      → StepsTo sys t (write_block sys over position ado bytes t)
  unfolding write_block
  write_block-StepsTo position ado bytes t =
      stepped_to sys
        (send_next-StepsTo sys over command_apwr (to_auto_increment_address position) ado bytes
          t).stepped

  direct_fallback-StepsTo :
      (d : SignalDirection) (position : ℕ) (signals : List SignalBinding) (window : SmWindow)
      (text : String) (t : RawTransport N)
      → StepsTo sys t (direct_fallback sys over d position signals window text t)
  unfolding direct_fallback
  direct_fallback-StepsTo d position signals window text t =
      let ado = (register_sm_base + sm_of d * 8) % 65536 in
      let bytes = sm_bytes sys over 0x1100 (estimated_length signals) (control_of d) 1 in
      let w = write_block sys over position ado bytes t in
      let written : Steps sys t w.0 = (write_block-StepsTo position ado bytes t).stepped in
      if_both (StepsTo sys t) (not (window.size == 0)) (stepped_to sys none_yet) (
        option_both (StepsTo sys t) w.1
          (stepped_to sys
            (Steps-trans sys written (read_sm-StepsTo position (sm_of d) w.0).stepped))
          (λ why. stepped_to sys written))

  pub fallback-StepsTo :
      (d : SignalDirection) (position : ℕ) (signals : List SignalBinding) (window : SmWindow)
      (text : String) (t : RawTransport N)
      → StepsTo sys t (fallback sys over d position signals window text t)
  unfolding fallback
  fallback-StepsTo d position signals window text t =
      let entries = build_default_entries d signals [] in
      let c = configure_pdo_raw sys over position (assign_of d) entries t in
      let r = read_sm sys over position (sm_of d) c.0 in
      let configured : Steps sys t c.0 =
        (configure_pdo_raw-StepsTo sys over position (assign_of d) entries t).stepped in
      let read : Steps sys t r.0 =
        Steps-trans sys configured (read_sm-StepsTo position (sm_of d) c.0).stepped in
      if_both (StepsTo sys t) (not c.1.0)
        (then_to sys configured (direct_fallback-StepsTo d position signals window text c.0))
        (outcome_both (StepsTo sys t) r.1
          (λ found. then_to sys read (direct_fallback-StepsTo d position signals found text r.0))
          (λ why. stepped_to sys read))

  map_window-StepsTo :
      (position : ℕ) (window : SmWindow) (p : Progress) (t : RawTransport N)
      → StepsTo sys t (map_window sys over input position window p t)
  unfolding map_window
  map_window-StepsTo position window p t =
      let ado = (0x0600 + p.fmmu * 16) % 65536 in
      let bytes = fmmu_bytes sys over p.logical window.size window.start false in
      let w = write_block sys over position ado bytes t in
      let written : Steps sys t w.0 = (write_block-StepsTo position ado bytes t).stepped in
      if_both (StepsTo sys t) (window.size == 0) (stepped_to sys none_yet)
        (option_both (StepsTo sys t) w.1 (stepped_to sys written) (λ why. stepped_to sys written))

  map_slave-StepsTo :
      (position : ℕ) (signals : List SignalBinding) (p : Progress) (t : RawTransport N)
      → StepsTo sys t (map_slave sys over input position signals p t)
  unfolding map_slave
  map_slave-StepsTo position signals p t =
      let r = read_sm sys over position 3 t in
      let read : Steps sys t r.0 = (read_sm-StepsTo position 3 t).stepped in
      outcome_both (StepsTo sys t) r.1
        (λ window.
          let f = fallback sys over input position signals window p.text r.0 in
          let settled : Steps sys t f.0 =
            Steps-trans sys read
              (fallback-StepsTo input position signals window p.text r.0).stepped in
          if_both (StepsTo sys t) (not (window.size == 0))
            (then_to sys read (map_window-StepsTo position window p r.0))
            (outcome_both (StepsTo sys t) f.1.0
              (λ found.
                then_to sys settled
                  (map_window-StepsTo position found (record p { text = f.1.1 }) f.0))
              (λ why. stepped_to sys settled)))
        (λ why. stepped_to sys read)

  -- The inputs.
  pub map_slaves-StepsTo :
      (all : List (ℕ × SignalBinding)) (slaves : List ℕ) (p : Progress) (t : RawTransport N)
      → StepsTo sys t (map_slaves sys over input all slaves p t)
  unfolding map_slaves
  map_slaves-StepsTo all [] p t = stepped_to sys none_yet
  map_slaves-StepsTo all (position ∷ slaves) p t =
      let signals = signals_at position all in
      let m = map_slave sys over input position signals p t in
      let mapped : Steps sys t m.0 = (map_slave-StepsTo position signals p t).stepped in
      outcome_both (StepsTo sys t) m.1
        (λ q. then_to sys mapped (map_slaves-StepsTo all slaves q m.0))
        (λ why. stepped_to sys mapped)
