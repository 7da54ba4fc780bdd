-- ===== src/Raw/Steps/Downloads.antt =====
-- SDO downloads and the PDO configuration as sequences of steps.
use openethercat.Base.{
  ℕ, zero, suc, ◌-◌, ◌%◌, List, [], ◌∷◌, String, leb, length, take, drop, min, if_both, option_both,
}
use openethercat.Raw.{RawTransport, System, io_class}
use openethercat.Raw.Download.{
  segment_payload_max, send_segment, download_segments, download_answered, ask_download,
  sdo_download_raw, write_sdo, write_sdos, configure_pdo_raw, accept_initiate_download,
  accept_download_segment, pdo_writes,
}
use openethercat.Raw.Mailbox.{Route}
use openethercat.Raw.Steps.{
  Steps, none_yet, steps, succeeds, Steps-trans, StepsTo, stepped_to, then_to,
}
use openethercat.Raw.Steps.Transactions.{
  settled_both, fail_call-StepsTo, start_transaction-Steps, resolve_route-StepsTo, ask-StepsTo,
}
use openethercat.Raw.Transaction.{
  start_transaction, resolve_route, configured_route, force_timeout_test,
}
use openethercat.Sdo.{SdoAddress, build_initiate_download_request, build_download_segment_request}
use openethercat.Transport.{PdoMappingEntry}

module _ {N : Type 0} (sys : System N) (over : ℕ → ℕ) where
  send_segment-StepsTo :
      (r : Route) (toggle : ℕ) (rest : List ℕ) (text : String) (t : RawTransport N)
      → StepsTo sys t (send_segment sys over r toggle rest text t)
  unfolding send_segment
  send_segment-StepsTo r toggle rest text t =
      stepped_to sys
        (ask-StepsTo sys over r
          (build_download_segment_request toggle (leb (length rest) segment_payload_max)
            (take (min (length rest) segment_payload_max) rest) segment_payload_max)
          (accept_download_segment over toggle) text t).stepped

  ask_download-StepsTo :
      (r : Route) (address : SdoAddress) (bytes : List ℕ) (text : String) (t : RawTransport N)
      → StepsTo sys t (ask_download sys over r address bytes text t)
  unfolding ask_download
  ask_download-StepsTo r address bytes text t =
      stepped_to sys
        (ask-StepsTo sys over r
          (build_initiate_download_request address (length bytes % 4294967296))
          (accept_initiate_download over address) text t).stepped

  download_segments-StepsTo :
      (r : Route) (fuel toggle : ℕ) (rest : List ℕ) (text : String) (t : RawTransport N)
      → StepsTo sys t (download_segments sys over r fuel toggle rest text t)
  unfolding download_segments
  download_segments-StepsTo r zero toggle rest text t = stepped_to sys (steps none_yet (succeeds t))
  download_segments-StepsTo r (suc fuel) toggle rest text t =
      let s = send_segment sys over r toggle rest text t in
      let sent : Steps sys t s.0 = (send_segment-StepsTo r toggle rest text t).stepped in
      if_both (StepsTo sys t) (leb (length rest) 0) (stepped_to sys (steps none_yet (succeeds t))) (
        settled_both (StepsTo sys t) s.1
          (λ ack left. then_to sys sent (
            download_segments-StepsTo r fuel (1 - toggle)
              (drop (min (length rest) segment_payload_max) rest) left s.0))
          (λ cls why code. then_to sys sent (fail_call-StepsTo sys [] cls why code s.0)))

  download_answered-StepsTo :
      (r : Route) (address : SdoAddress) (bytes : List ℕ) (text : String) (t : RawTransport N)
      → StepsTo sys t
          (download_answered sys over r bytes (ask_download sys over r address bytes text t))
  unfolding download_answered
  download_answered-StepsTo r address bytes text t =
      let s = ask_download sys over r address bytes text t in
      let asked : Steps sys t s.0 = (ask_download-StepsTo r address bytes text t).stepped in
      settled_both (StepsTo sys t) s.1
        (λ ack left.
          then_to sys asked (download_segments-StepsTo r (length bytes) 0 bytes left s.0))
        (λ cls why code. then_to sys asked (fail_call-StepsTo sys [] cls why code s.0))

  pub sdo_download_raw-StepsTo :
      (position : ℕ) (address : SdoAddress) (bytes : List ℕ) (t : RawTransport N)
      → StepsTo sys t (sdo_download_raw sys over position address bytes t)
  unfolding sdo_download_raw
  sdo_download_raw-StepsTo position address bytes t =
      let started = start_transaction t in
      let r = configured_route sys over position started in
      let s = resolve_route sys over r "" started in
      let begun : Steps sys t started = start_transaction-Steps sys t in
      let resolved : Steps sys t s.0 =
        Steps-trans sys begun (resolve_route-StepsTo sys over r "" started).stepped in
      let asked = then_to sys resolved (download_answered-StepsTo s.1.0 address bytes s.1.1 s.0) in
      option_both (StepsTo sys t) t.socket_fd
        (if_both (StepsTo sys t) (force_timeout_test sys over) asked
          (then_to sys begun (fail_call-StepsTo sys [] io_class "transport not open" 0 started)))
        (λ fd. asked)

  write_sdo-StepsTo :
      (position index sub_index : ℕ) (bytes : List ℕ) (t : RawTransport N)
      → StepsTo sys t (write_sdo sys over position index sub_index bytes t)
  unfolding write_sdo
  write_sdo-StepsTo position index sub_index bytes t =
      stepped_to sys
        (sdo_download_raw-StepsTo position (record { index = index; sub_index = sub_index }) bytes
          t).stepped

  write_sdos-StepsTo :
      (position : ℕ) (writes : List (SdoAddress × List ℕ)) (t : RawTransport N)
      → StepsTo sys t (write_sdos sys over position writes t)
  unfolding write_sdos
  write_sdos-StepsTo position [] t = stepped_to sys none_yet
  write_sdos-StepsTo position ((a, bytes) ∷ writes) t =
      let s = write_sdo sys over position a.index a.sub_index bytes t in
      let written : Steps sys t s.0 =
        (write_sdo-StepsTo position a.index a.sub_index bytes t).stepped in
      option_both (StepsTo sys t) s.1 (then_to sys written (write_sdos-StepsTo position writes s.0))
        (λ why. stepped_to sys written)

  pub configure_pdo_raw-StepsTo :
      (position assign_index : ℕ) (entries : List PdoMappingEntry) (t : RawTransport N)
      → StepsTo sys t (configure_pdo_raw sys over position assign_index entries t)
  unfolding configure_pdo_raw
  configure_pdo_raw-StepsTo position assign_index entries t =
      stepped_to sys (write_sdos-StepsTo position (pdo_writes assign_index entries) t).stepped
