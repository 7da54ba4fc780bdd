-- ===== src/Master/Recovery.antt =====
-- Recovery of slaves in src/master/ethercat_master.cpp: diagnosing each, and retrying, reconfiguring or
-- failing over the ones that need it.
use openethercat.Base.{
  ℕ, Bool, true, false, not, ◌||◌, List, [], ◌∷◌, Option, none, some, String, ◌<>◌, if◌then◌else◌,
}
use openethercat.Base.Maps.{find, put, nat_key}
use openethercat.Base.Text.{to_string}
use openethercat.Config.{SlaveIdentity}
use openethercat.Diagnostics.{
  RecoveryAction, no_action, retry_transition, reconfigure, failover, SlaveDiagnostic,
  decode_al_status, decide,
}
use openethercat.SlaveState.{SlaveState, init, op}
use openethercat.Topology.Manager.{next64}
use openethercat.Transport.{Transport}
use openethercat.Master.{Master, RecoveryEvent}
use openethercat.Master.Log.{set_error, append_recovery_event}
use openethercat.Master.Wait.{Host, transition_slave_to}

-- `counts[position]`, which is zero where nothing was counted.
unfoldable pub count : ℕ → List (ℕ × ℕ) → ℕ
unfolding find
count position counts = elim (find position counts) [ none ↦ 0 | some n ↦ n ]

abbrev pub is_no_action : RecoveryAction → Bool
is_no_action no_action = true
is_no_action retry_transition = false
is_no_action reconfigure = false
is_no_action failover = false

abbrev pub answering : SlaveIdentity → SlaveState → ℕ → SlaveDiagnostic
unfolding decode_al_status
answering slave state code = record {
  identity = slave;
  available = true;
  state = state;
  al_status_code = code;
  al_status = decode_al_status code;
  suggested_action = no_action;
}

abbrev unavailable : SlaveIdentity → String → SlaveDiagnostic
unavailable slave error = record {
  identity = slave;
  available = false;
  state = init;
  al_status_code = 0;
  al_status = record { code = 0; name = "Unavailable"; description = error; recoverable = false };
  suggested_action = failover;
}

abbrev begin_event : ℕ → SlaveDiagnostic → Bool → String → RecoveryEvent
begin_event cycles_total d success message = record {
  cycle_index = cycles_total;
  slave_position = d.identity.position;
  al_status_code = d.al_status_code;
  action = d.suggested_action;
  success = success;
  message = message;
}

module _ {T : Type 0} where
  -- What is done about a slave that answers: the override of its status code, or the policy's.
  unfoldable suggested : Master T → SlaveDiagnostic → RecoveryAction
  unfolding decide count find
  suggested m d = elim (find d.al_status_code m.recovery_action_overrides) [
    | some action ↦ action
    | none ↦
        decide d (count d.identity.position m.retry_counts)
          (count d.identity.position m.reconfigure_counts) m.recovery_options.max_retries_per_slave
          m.recovery_options.max_reconfigure_per_slave
  ]

  unfoldable diagnose :
      Master T → SlaveIdentity → Option SlaveState → Option ℕ → String → SlaveDiagnostic
  unfolding suggested
  diagnose m slave (some state) (some code) error = record (answering slave state code) {
    suggested_action = suggested m (answering slave state code);
  }
  diagnose m slave none code error = unavailable slave error
  diagnose m slave (some state) none error = unavailable slave error

  -- The event of an attempt is logged with its result.
  unfoldable pub logged : SlaveDiagnostic → ℕ → String → Master T × Bool → Master T × Bool
  unfolding append_recovery_event
  logged d cycles_total message (m, ok) = (
    append_recovery_event (begin_event cycles_total d ok (if ok then message else m.error)) m,
    ok,
  )

abbrev pub is_nil : List SlaveDiagnostic → Bool
is_nil [] = true
is_nil (d ∷ rest) = false

module _ {T : Type 0} (io : Transport T) where
  unfoldable diagnose_all : Master T → List SlaveIdentity → T → T × List SlaveDiagnostic
  unfolding diagnose
  diagnose_all m [] t = (t, [])
  diagnose_all m (slave ∷ rest) t =
      let (state_read, state) = io.read_slave_state slave.position t in
      let (code_read, code) = io.read_slave_al_status_code slave.position state_read in
      let (last, diagnostics) = diagnose_all m rest code_read in
      (last, diagnose m slave state code (io.last_error code_read) ∷ diagnostics)

  unfoldable pub collect_slave_diagnostics : Master T → Master T × List SlaveDiagnostic
  unfolding diagnose_all
  collect_slave_diagnostics m =
      let (after, diagnostics) = diagnose_all m m.config.slaves m.transport in
      (record m { transport = after; last_diagnostics = diagnostics }, diagnostics)

  unfoldable pub try_retry : Host T → SlaveDiagnostic → Master T → Master T × Bool
  unfolding put count transition_slave_to logged
  try_retry host d m =
      let position = d.identity.position in
      logged d m.statistics.cycles_total "Retry transition to OP succeeded" (
        transition_slave_to io host position op (record m {
          retry_counts = put position (next64 (count position m.retry_counts)) m.retry_counts;
        }))

  unfoldable pub try_reconfigure : Host T → SlaveDiagnostic → Master T → Master T × Bool
  unfolding put count transition_slave_to logged to_string
  try_reconfigure host d m =
      let position = d.identity.position in
      let (after, ok) = io.reconfigure_slave position m.transport in
      let counted = record m {
        transport = after;
        reconfigure_counts =
            put position (next64 (count position m.reconfigure_counts)) m.reconfigure_counts;
      } in
      if not ok
      then logged d m.statistics.cycles_total "" (
        set_error
            ("Reconfigure failed for slave "
              <> (to_string position <> (": " <> io.last_error after)))
            counted,
        false,
      )
      else logged d m.statistics.cycles_total "Reconfigure + transition to OP succeeded"
          (transition_slave_to io host position op counted)

  unfoldable pub try_failover : SlaveDiagnostic → Master T → Master T × Bool
  unfolding logged to_string
  try_failover d m =
      let position = d.identity.position in
      let (after, ok) = io.failover_slave position m.transport in
      let stopping = "Failover triggered master stop for slave " <> to_string position in
      if not ok
      then logged d m.statistics.cycles_total "" (
        set_error
            ("Failover failed for slave " <> (to_string position <> (": " <> io.last_error after)))
            (record m { transport = after }),
        false,
      )
      else if m.recovery_options.stop_master_on_failover
      then logged d m.statistics.cycles_total stopping (
        set_error stopping
            (record m { transport = io.close_transport after; started = false; degraded = true }),
        true,
      )
      else logged d m.statistics.cycles_total "Slave moved to failover/degraded mode"
          (record m { transport = after; degraded = true }, true)

  unfoldable pub recover_slave : Host T → SlaveDiagnostic → Master T → Master T × Bool
  unfolding logged try_retry try_reconfigure try_failover
  recover_slave host d m = elim d.suggested_action [
    | no_action ↦ logged d m.statistics.cycles_total "No recovery needed" (m, true)
    | retry_transition ↦ try_retry host d m
    | reconfigure ↦ try_reconfigure host d m
    | failover ↦ try_failover d m
  ]

  unfoldable pub recover_each : Host T → List SlaveDiagnostic → Bool → Master T → Master T × Bool
  unfolding recover_slave
  recover_each host [] recovered_any m = (m, recovered_any)
  recover_each host (d ∷ rest) recovered_any m = elim (is_no_action d.suggested_action) [
    | true ↦ recover_each host rest recovered_any m
    | false ↦
        let (after, ok) = recover_slave host d m in
        recover_each host rest (ok || recovered_any) after
  ]

  unfoldable pub recover_network : Host T → Master T → Master T × Bool
  unfolding collect_slave_diagnostics recover_each
  recover_network host m =
      let (diagnosed, diagnostics) = collect_slave_diagnostics m in
      if is_nil diagnostics
      then (set_error "No slaves available for recovery" diagnosed, false)
      else recover_each host diagnostics false diagnosed
