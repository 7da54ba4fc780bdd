-- ===== src/Raw/Mapping.antt =====
-- configureProcessImage of src/transport/linux_raw_socket_transport_process_image.cpp: sync managers, FMMUs and
-- logical windows for the slaves that signals are bound to. `walk` stands for the order in which an
-- `std::unordered_set` of positions is walked. What OEC_TRACE_MAP prints is left out.
use openethercat.Base.{
  ℕ, ◌+◌, ◌*◌, ◌%◌, Bool, true, false, ◌&&◌, not, List, [], ◌∷◌, ◌++◌, Option, none, some, String,
  if◌then◌else◌, ltb, ◌==◌, length, replicate,
}
use openethercat.Base.Bytes.{read_le16, put_le16, put_le32}
use openethercat.Base.Maps.{string_key}
use openethercat.Config.{NetworkConfiguration, SignalBinding, SignalDirection, input, output}
use openethercat.Raw.{RawTransport, System, Outcome, done, failed, ProcessDataWindow}
use openethercat.Raw.Datagram.{command_aprd, command_apwr, to_auto_increment_address, send_next}
use openethercat.Raw.Download.{configure_pdo_raw}
use openethercat.Raw.Exchange.{is_some}
use openethercat.Raw.SyncManagers.{SmWindow, register_sm_base}
use openethercat.Raw.Signals.{
  none_of, sm_of, assign_of, control_of, is_output, slave_by_name, placed, positions, signals_at,
  build_default_entries, estimated_length,
}

-- What the loops carry: the next logical address and FMMU, the slaves mapped, and the text left behind.
pub record Progress : Type 0 where
  pub logical : ℕ
  pub fmmu : ℕ
  pub mapped : ℕ
  pub text : String

module _ {N : Type 0} (sys : System N) (over : ℕ → ℕ) where
  unfoldable pub read_sm : ℕ → ℕ → RawTransport N → RawTransport N × Outcome SmWindow
  unfolding send_next to_auto_increment_address read_le16
  read_sm position sm t =
      let (sent, result) =
        send_next sys over command_aprd (to_auto_increment_address position)
          ((register_sm_base + sm * 8) % 65536) (replicate 8 0) t in
      (
        sent,
        elim result [
          | failed why ↦ failed why
          | done reply ↦
              if ltb (length reply.payload) 4
              then failed "SM read payload too short"
              else done (record {
                start = read_le16 over reply.payload 0;
                size = read_le16 over reply.payload 2;
              })
        ],
      )

  unfoldable pub fmmu_bytes : ℕ → ℕ → ℕ → Bool → List ℕ
  unfolding put_le16 put_le32
  fmmu_bytes logical_start size physical_start write_direction =
      put_le32 logical_start
      ++ put_le16 size
      ++ (0 ∷ 7 ∷ [])
      ++ put_le16 physical_start
      ++ (0 ∷ (if write_direction then 2 else 1) ∷ 1 ∷ 0 ∷ 0 ∷ 0 ∷ [])

  unfoldable pub sm_bytes : ℕ → ℕ → ℕ → ℕ → List ℕ
  unfolding put_le16
  sm_bytes start size control activate =
      put_le16 start ++ put_le16 size ++ (control ∷ 0 ∷ activate ∷ 0 ∷ [])

  -- `writeFmmu` and `writeSm`: the text of an error, if the write fails.
  unfoldable pub write_block : ℕ → ℕ → List ℕ → RawTransport N → RawTransport N × Option String
  unfolding send_next to_auto_increment_address
  write_block position ado bytes t =
      let (sent, result) =
        send_next sys over command_apwr (to_auto_increment_address position) ado bytes t in
      (sent, elim result [ failed why ↦ some why | done reply ↦ none ])

  -- A sync manager that is still empty is written with defaults, and read again.
  unfoldable pub direct_fallback :
      SignalDirection
      → ℕ
      → List SignalBinding
      → SmWindow
      → String
      → RawTransport N
      → RawTransport N × (Outcome SmWindow × String)
  unfolding write_block sm_bytes read_sm estimated_length
  direct_fallback d position signals window text t =
      let (written, failure) =
        write_block position ((register_sm_base + sm_of d * 8) % 65536)
          (sm_bytes 0x1100 (estimated_length signals) (control_of d) 1) t in
      let (read, again) = read_sm position (sm_of d) written in
      if not (window.size == 0)
      then (t, (done window, text))
      else elim failure [ some why ↦ (written, (done window, why)) | none ↦ (read, (again, text)) ]

  -- An empty sync manager: default PDO entries first.
  unfoldable pub fallback :
      SignalDirection
      → ℕ
      → List SignalBinding
      → SmWindow
      → String
      → RawTransport N
      → RawTransport N × (Outcome SmWindow × String)
  unfolding configure_pdo_raw build_default_entries read_sm direct_fallback
  fallback d position signals window text t =
      let (configured, (ok, pdo_error)) =
        configure_pdo_raw sys over position (assign_of d) (build_default_entries d signals []) t in
      let (read, again) = read_sm position (sm_of d) configured in
      if not ok then direct_fallback d position signals window text configured else elim again [
        | failed why ↦ (read, (failed why, why))
        | done found ↦ direct_fallback d position signals found text read
      ]

  -- The window of a slave is mapped, unless it is empty.
  unfoldable pub map_window :
      SignalDirection → ℕ → SmWindow → Progress → RawTransport N → RawTransport N × Outcome Progress
  unfolding write_block fmmu_bytes
  map_window d position window p t =
      let (written, failure) =
        write_block position ((0x0600 + p.fmmu * 16) % 65536)
          (fmmu_bytes p.logical window.size window.start (is_output d)) t in
      let entry : ProcessDataWindow = record {
        slave_position = position;
        physical_start = window.start;
        window_length = window.size;
        logical_start = p.logical;
      } in
      if window.size == 0 then (t, done p) else elim failure [
        | some why ↦ (written, failed why)
        | none ↦ (
          if is_output d
              then record written { output_windows = written.output_windows ++ (entry ∷ []) }
              else written,
          done (record p {
            logical = (p.logical + window.size) % 4294967296;
            fmmu = (p.fmmu + 1) % 256;
            mapped = p.mapped + 1;
          }),
        )
      ]

  unfoldable pub map_slave :
      SignalDirection
      → ℕ
      → List SignalBinding
      → Progress
      → RawTransport N
      → RawTransport N × Outcome Progress
  unfolding read_sm fallback map_window
  map_slave d position signals p t =
      let (read, first) = read_sm position (sm_of d) t in
      elim first [
        | failed why ↦ (read, failed why)
        | done window ↦
            let (settled, (second, text)) = fallback d position signals window p.text read in
            if not (window.size == 0) then map_window d position window p read else elim second [
              | failed why ↦ (settled, failed why)
              | done found ↦ map_window d position found (record p { text = text }) settled
            ]
      ]

  unfoldable pub map_slaves :
      SignalDirection
      → List (ℕ × SignalBinding)
      → List ℕ
      → Progress
      → RawTransport N
      → RawTransport N × Outcome Progress
  unfolding map_slave signals_at
  map_slaves d all [] p t = (t, done p)
  map_slaves d all (position ∷ rest) p t =
      let (after, result) = map_slave d position (signals_at position all) p t in
      let go_on = map_slaves d all rest in
      elim result [ failed why ↦ (after, failed why) | done progress ↦ go_on progress after ]

  -- The inputs, after the outputs, and the two checks at the end.
  unfoldable pub map_inputs :
      List (ℕ × SignalBinding)
      → List ℕ
      → List ℕ
      → ℕ
      → Progress
      → RawTransport N
      → RawTransport N × (Bool × String)
  unfolding map_slaves
  map_inputs all outputs inputs logical p t =
      let (after, result) =
        map_slaves input all inputs
          (record { logical = logical; fmmu = p.fmmu; mapped = 0; text = p.text }) t in
      elim result [
        | failed why ↦ (after, (false, why))
        | done q ↦
            if not (none_of outputs) && (p.mapped == 0)
            then (
              after,
              (false, "No output slaves produced valid SM2 mapping (all SM2 lengths were zero)"),
            )
            else if not (none_of inputs) && (q.mapped == 0)
            then (
              after,
              (false, "No input slaves produced valid SM3 mapping (all SM3 lengths were zero)"),
            )
            else (after, (true, q.text))
      ]

  unfoldable pub configure_process_image_raw :
      (List ℕ → List ℕ) → NetworkConfiguration → RawTransport N → RawTransport N × (Bool × String)
  unfolding slave_by_name placed positions map_slaves map_inputs
  configure_process_image_raw walk config t =
      let names = slave_by_name config.slaves [] in
      let outputs = placed names output config.signals in
      let inputs = placed names input config.signals in
      let output_slaves = walk (positions outputs []) in
      let input_slaves = walk (positions inputs []) in
      let (after, result) =
        map_slaves output outputs output_slaves
          (record { logical = t.logical_address; fmmu = 0; mapped = 0; text = "" })
          (record t { output_windows = [] }) in
      if not (is_some t.socket_fd) then (t, (false, "transport not open")) else elim result [
        | failed why ↦ (after, (false, why))
        | done p ↦
            map_inputs inputs output_slaves input_slaves
              ((t.logical_address + config.output_bytes) % 4294967296) p after
      ]
