-- ===== src/Master/Environment.antt =====
-- The environment variables that src/master/ethercat_master.cpp reads for the topology policy.
use text.Mathlib.Text.{◌==◌ as str_eq}
use openethercat.Base.{ℕ, Bool, true, false, ◌||◌, [], Option, none, some, String, if◌then◌else◌}
use openethercat.Master.{
  Master, TopologyPolicyAction, monitor, retry, reconfigure, degrade, fail_stop, initial_status,
  no_kpis,
}
use openethercat.Master.Options.{at_least_one}
use openethercat.Master.Wait.{Host}

-- `parseBoolEnv`, `parseIntegralEnv` and `parseTopologyPolicyAction`.
unfoldable parse_bool_env : Option String → Bool → Bool
parse_bool_env none fallback = fallback
parse_bool_env (some s) fallback =
    if str_eq s "1" || str_eq s "true" || str_eq s "TRUE" || str_eq s "on" || str_eq s "ON"
    then true
    else if str_eq s "0" || str_eq s "false" || str_eq s "FALSE" || str_eq s "off" || str_eq s "OFF"
    then false
    else fallback

unfoldable parse_integral_env : (String → Option ℕ) → Option String → ℕ → ℕ
parse_integral_env stoull none fallback = fallback
parse_integral_env stoull (some s) fallback = elim (stoull s) [ none ↦ fallback | some n ↦ n ]

unfoldable parse_topology_policy_action :
    Option String → TopologyPolicyAction → TopologyPolicyAction
parse_topology_policy_action none fallback = fallback
parse_topology_policy_action (some s) fallback =
    if str_eq s "monitor" || str_eq s "MONITOR"
    then monitor
    else if str_eq s "retry" || str_eq s "RETRY"
    then retry
    else if str_eq s "reconfigure" || str_eq s "RECONFIGURE"
    then reconfigure
    else if str_eq s "degrade" || str_eq s "DEGRADE"
    then degrade
    else if str_eq s "failstop"
        || str_eq s "FAILSTOP"
        || str_eq s "fail-stop"
        || str_eq s "FAIL-STOP"
    then fail_stop
    else fallback

module _ {T : Type 0} (host : Host T) where
  abbrev pub flag : String → Bool → Bool
  unfolding parse_bool_env
  flag name = parse_bool_env (host.getenv name)

  abbrev pub number : String → ℕ → ℕ
  unfolding parse_integral_env
  number name = parse_integral_env host.stoull (host.getenv name)

  abbrev pub policy : String → TopologyPolicyAction → TopologyPolicyAction
  unfolding parse_topology_policy_action
  policy name = parse_topology_policy_action (host.getenv name)

  unfoldable pub configure_topology_recovery_from_environment : Master T → Master T
  configure_topology_recovery_from_environment m =
      let o = m.topology_recovery_options in
      record m {
        topology_recovery_options = record {
          enable = flag "OEC_TOPOLOGY_POLICY_ENABLE" o.enable;
          missing_grace_cycles =
              at_least_one (number "OEC_TOPOLOGY_MISSING_GRACE" o.missing_grace_cycles);
          hot_connect_grace_cycles =
              at_least_one (number "OEC_TOPOLOGY_HOTCONNECT_GRACE" o.hot_connect_grace_cycles);
          redundancy_grace_cycles =
              at_least_one (number "OEC_TOPOLOGY_REDUNDANCY_GRACE" o.redundancy_grace_cycles);
          missing_slave_action = policy "OEC_TOPOLOGY_MISSING_ACTION" o.missing_slave_action;
          hot_connect_action = policy "OEC_TOPOLOGY_HOTCONNECT_ACTION" o.hot_connect_action;
          redundancy_action = policy "OEC_TOPOLOGY_REDUNDANCY_ACTION" o.redundancy_action;
        };
        missing_condition_cycles = 0;
        hot_connect_condition_cycles = 0;
        redundancy_condition_cycles = 0;
        missing_policy_latched = false;
        hot_connect_policy_latched = false;
        redundancy_policy_latched = false;
        redundancy_status = initial_status;
        redundancy_kpis = no_kpis;
        redundancy_fault_active = false;
        redundancy_transitions = [];
        max_redundancy_transition_history =
            at_least_one
              (number "OEC_TOPOLOGY_REDUNDANCY_HISTORY" m.max_redundancy_transition_history);
      }
