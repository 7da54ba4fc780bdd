-- ===== src/Raw/Windows.antt =====
-- Where configureProcessImage of src/transport/linux_raw_socket_transport_process_image.cpp puts the outputs.
use mathlib.Core.Path.{subst}
use openethercat.Base.{
  ℕ, ◌+◌, ◌%◌, ◌≡◌, ◌<◌, refl, sym, ap, ◌∙◌, Bool, true, not, List, [], ◌∷◌, ◌++◌, String, ◌==◌,
  arith, ◌&&◌, if_both, if_cases, option_both, ◌*◌,
}
use openethercat.Config.{NetworkConfiguration, SignalBinding, input, output}
use openethercat.Raw.{RawTransport, System, Outcome, done, failed, ProcessDataWindow}
use openethercat.Raw.Mailbox.{queue_emergency}
use openethercat.Raw.Mapping.{
  Progress, read_sm, write_block, fmmu_bytes, fallback, map_window, map_slave, map_slaves,
  map_inputs, configure_process_image_raw,
}
use openethercat.Raw.Replies.{outcome_cases}
use openethercat.Raw.Signals.{none_of, signals_at, placed, positions, slave_by_name}
use openethercat.Raw.Steps.{
  Step, acts, indexes, frames, notes, counts, queues, succeeds, fails, Steps, none_yet, steps,
  Steps-trans, outcome_both,
}
use openethercat.Raw.Exchange.{is_some}
use openethercat.Raw.Steps.Mappings.{
  map_slaves-StepsTo, read_sm-StepsTo, write_block-StepsTo, fallback-StepsTo,
}
use openethercat.Raw.SyncManagers.{SmWindow}
use openethercat.Raw.Transaction.{fail_transaction}

-- Windows that begin at `start`, are not empty, follow each other without a gap in 32 bits, and leave off
-- at `end`.
abbrev pub AreContiguous : ℕ → List ProcessDataWindow → ℕ → Type 0
AreContiguous start [] end = start ≡ end
AreContiguous start (w ∷ windows) end =
    (w.logical_start ≡ start)
    × (0 < w.window_length)
    × AreContiguous ((start + w.window_length) % 4294967296) windows end

AreContiguous-append :
    (start : ℕ) (windows : List ProcessDataWindow) (end : ℕ) (w : ProcessDataWindow)
    → AreContiguous start windows end
    → w.logical_start ≡ end
    → 0 < w.window_length
    → AreContiguous start (windows ++ (w ∷ [])) ((end + w.window_length) % 4294967296)
AreContiguous-append start [] end w h e k =
    (e ∙ sym h, k, ap (λ (n : ℕ). (n + w.window_length) % 4294967296) h)
AreContiguous-append start (v ∷ windows) end w h e k =
    (h.0, h.1, AreContiguous-append ((start + v.window_length) % 4294967296) windows end w h.2 e k)

progress_or : Progress → Outcome Progress → Progress
progress_or p (done q) = q
progress_or p (failed why) = p

done-injective : (p q : Progress) → done p ≡ done q → p ≡ q
unfolding progress_or
done-injective p q e = ap (progress_or p) e

module _ {N : Type 0} (sys : System N) where
  Step-windows : {t u : RawTransport N} → Step sys t u → u.output_windows ≡ t.output_windows
  unfolding queue_emergency fail_transaction
  Step-windows (acts t n h) = refl
  Step-windows (indexes t) = refl
  Step-windows (frames t) = refl
  Step-windows (notes t n) = refl
  Step-windows (counts t d h) = refl
  Step-windows (queues t m) = refl
  Step-windows (succeeds t) = refl
  Step-windows (fails t known text) = refl

  Steps-windows : {t u : RawTransport N} → Steps sys t u → u.output_windows ≡ t.output_windows
  Steps-windows none_yet = refl
  Steps-windows (steps h s) = Step-windows s ∙ Steps-windows h

module _ {N : Type 0} (sys : System N) (over : ℕ → ℕ) (start : ℕ) where
  -- A state whose output windows leave off at an address.
  LeavesOff : RawTransport N → ℕ → Type 0
  LeavesOff t end = AreContiguous start t.output_windows end

  -- The same of a result, if there is progress.
  Extends : RawTransport N × Outcome Progress → Type 0
  Extends r = (q : Progress) → r.1 ≡ done q → LeavesOff r.0 q.logical

  LeavesOff-Steps :
      (t u : RawTransport N) (end : ℕ) → Steps sys t u → LeavesOff t end → LeavesOff u end
  unfolding LeavesOff
  LeavesOff-Steps t u end h c =
      subst (λ ws. AreContiguous start ws end) (sym (Steps-windows sys h)) c

  reached : (t : RawTransport N) (p : Progress) → LeavesOff t p.logical → Extends (t, done p)
  unfolding Extends
  reached t p c q e = subst (λ (x : Progress). LeavesOff t x.logical) (done-injective p q e) c

  stuck : (t : RawTransport N) (why : String) → Extends (t, failed why)
  unfolding Extends
  stuck t why q e = cc

  attained :
      (r : RawTransport N × Outcome Progress) (q : Progress)
      → Extends r
      → r.1 ≡ done q
      → LeavesOff r.0 q.logical
  unfolding Extends
  attained r q h e = h q e

  extended :
      (t : RawTransport N) (end : ℕ) (w : ProcessDataWindow)
      → LeavesOff t end
      → w.logical_start ≡ end
      → 0 < w.window_length
      → LeavesOff
          (record t { output_windows = t.output_windows ++ (w ∷ []) })
          ((end + w.window_length) % 4294967296)
  unfolding LeavesOff
  extended t end w c e k = AreContiguous-append start t.output_windows end w c e k

  map_window-Extends :
      (position : ℕ) (window : SmWindow) (p : Progress) (t : RawTransport N)
      → LeavesOff t p.logical
      → Extends (map_window sys over output position window p t)
  unfolding map_window
  map_window-Extends position window p t c =
      let w =
        write_block sys over position ((0x0600 + p.fmmu * 16) % 65536)
          (fmmu_bytes sys over p.logical window.size window.start true) t in
      let entry : ProcessDataWindow = record {
        slave_position = position;
        physical_start = window.start;
        window_length = window.size;
        logical_start = p.logical;
      } in
      let kept : LeavesOff w.0 p.logical =
        LeavesOff-Steps t w.0 p.logical
          (write_block-StepsTo sys over position ((0x0600 + p.fmmu * 16) % 65536)
            (fmmu_bytes sys over p.logical window.size window.start true) t).stepped
          c in
      if_cases Extends (window.size == 0) (λ _. reached t p c)
        (λ nonempty.
          option_both Extends w.1
            (reached (record (w.0) { output_windows = w.0.output_windows ++ (entry ∷ []) }) _
              (extended w.0 p.logical entry kept refl (ground arith)))
            (λ why. stuck w.0 why))

  map_slave-Extends :
      (position : ℕ) (signals : List SignalBinding) (p : Progress) (t : RawTransport N)
      → LeavesOff t p.logical
      → Extends (map_slave sys over output position signals p t)
  unfolding map_slave
  map_slave-Extends position signals p t c =
      let r = read_sm sys over position 2 t in
      let read : Steps sys t r.0 = (read_sm-StepsTo sys over position 2 t).stepped in
      outcome_both Extends r.1
        (λ window.
          let f = fallback sys over output position signals window p.text r.0 in
          let settled : Steps sys t f.0 =
            Steps-trans sys read
              (fallback-StepsTo sys over output position signals window p.text r.0).stepped in
          if_both Extends (not (window.size == 0))
            (map_window-Extends position window p r.0 (LeavesOff-Steps t r.0 p.logical read c))
            (outcome_both Extends f.1.0
              (λ found.
                map_window-Extends position found (record p { text = f.1.1 }) f.0
                  (LeavesOff-Steps t f.0 p.logical settled c))
              (λ why. stuck f.0 why)))
        (λ why. stuck r.0 why)

  map_slaves-Extends :
      (all : List (ℕ × SignalBinding)) (slaves : List ℕ) (p : Progress) (t : RawTransport N)
      → LeavesOff t p.logical
      → Extends (map_slaves sys over output all slaves p t)
  unfolding map_slaves
  map_slaves-Extends all [] p t c = reached t p c
  map_slaves-Extends all (position ∷ slaves) p t c =
      let m = map_slave sys over output position (signals_at position all) p t in
      outcome_cases Extends m.1
        (λ q e.
          map_slaves-Extends all slaves q m.0
            (attained m q (map_slave-Extends position (signals_at position all) p t c) e))
        (λ why. stuck m.0 why)

  -- The inputs do not touch the windows.
  map_inputs-Extends :
      (all : List (ℕ × SignalBinding)) (outputs inputs : List ℕ) (logical : ℕ) (p : Progress)
      (t : RawTransport N)
      → (map_inputs sys over all outputs inputs logical p t).0.output_windows ≡ t.output_windows
  unfolding map_inputs
  map_inputs-Extends all outputs inputs logical p t =
      let q : Progress = record { logical = logical; fmmu = p.fmmu; mapped = 0; text = p.text } in
      let m = map_slaves sys over input all inputs q t in
      let Same : RawTransport N × (Bool × String) → Type 0 =
        λ r. r.0.output_windows ≡ t.output_windows in
      let same : m.0.output_windows ≡ t.output_windows =
        Steps-windows sys (map_slaves-StepsTo sys over all inputs q t).stepped in
      outcome_both Same m.1
        (λ progress.
          if_both Same (not (none_of outputs) && (p.mapped == 0)) same
            (if_both Same (not (none_of inputs) && (progress.mapped == 0)) same same))
        (λ why. same)

-- When the process image is configured, in whatever order the slaves are walked, the windows of the
-- outputs lie one behind the other from the logical address on, in 32 bits: none is empty, and none
-- overlaps the one before it.
pub configure_process_image_raw-contiguous :
    {N : Type 0} (sys : System N) (over : ℕ → ℕ) (walk : List ℕ → List ℕ)
    (config : NetworkConfiguration) (t : RawTransport N)
    → (configure_process_image_raw sys over walk config t).1.0 ≡ true
    → (end : ℕ) × AreContiguous t.logical_address
        (configure_process_image_raw sys over walk config t).0.output_windows
        end
unfolding configure_process_image_raw LeavesOff
configure_process_image_raw-contiguous {N} sys over walk config t =
    let names = slave_by_name config.slaves [] in
    let outputs = placed names output config.signals in
    let inputs = placed names input config.signals in
    let slaves = walk (positions outputs []) in
    let p : Progress = record { logical = t.logical_address; fmmu = 0; mapped = 0; text = "" } in
    let cleared = record t { output_windows = [] } in
    let m = map_slaves sys over output outputs slaves p cleared in
    let Good : RawTransport N × (Bool × String) → Type 0 =
      λ r. r.1.0 ≡ true → (end : ℕ) × AreContiguous t.logical_address r.0.output_windows end in
    if_both Good (not (is_some t.socket_fd)) (λ ok. absurd (ground arith))
      (outcome_cases Good m.1
        (λ q e ok. (
          q.logical,
          subst (λ ws. AreContiguous t.logical_address ws q.logical)
              (sym (
                map_inputs-Extends sys over t.logical_address inputs slaves
                  (walk (positions inputs []))
                  ((t.logical_address + config.output_bytes) % 4294967296) q m.0))
              (attained sys over t.logical_address m q
                (map_slaves-Extends sys over t.logical_address outputs slaves p cleared refl) e),
        ))
        (λ why ok. absurd (ground arith)))
