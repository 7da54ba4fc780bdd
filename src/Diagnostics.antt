-- ===== src/Diagnostics.antt =====
-- src/master/slave_diagnostics.cpp and include/openethercat/master/slave_diagnostics.hpp.
pub mod Policy
mod Runs
use Prim.Native.Char.{Char, code}
use openethercat.Base.{
  ℕ, Bool, true, false, ◌&&◌, ◌||◌, not, List, [], ◌∷◌, Option, none, some, String, if◌then◌else◌,
  ltb, leb, ◌==◌, ◌+◌,
}
use openethercat.Config.{SlaveIdentity}
use openethercat.SlaveState.{SlaveState, op, same_state}

pub data RecoveryAction : Type 0 where
  no_action retry_transition reconfigure failover : RecoveryAction

pub record AlStatusInterpretation : Type 0 where
  pub code : ℕ
  pub name : String
  pub description : String
  pub recoverable : Bool

pub record SlaveDiagnostic : Type 0 where
  pub identity : SlaveIdentity
  pub available : Bool
  pub state : SlaveState
  pub al_status_code : ℕ
  pub al_status : AlStatusInterpretation
  pub suggested_action : RecoveryAction

abbrev pub status : ℕ → String → String → Bool → AlStatusInterpretation
status c n d r = record { code = c; name = n; description = d; recoverable = r }

unfoldable pub decode_al_status : ℕ → AlStatusInterpretation
decode_al_status c =
    if c == 0x0000
    then status c "NoError" "No AL status error" true
    else if c == 0x0011
    then status c "InvalidRequestedStateChange" "Requested state transition is not allowed" true
    else if c == 0x0012
    then status c "UnknownRequestedState" "Requested state is not recognized" false
    else if c == 0x0013
    then status c "BootstrapNotSupported" "Bootstrap transition unsupported" false
    else if c == 0x0014
    then status c "NoValidFirmware" "No valid firmware/application present" false
    else if c == 0x0015
    then status c "InvalidMailboxConfiguration" "Mailbox configuration invalid" true
    else if c == 0x0016
    then status c "InvalidMailboxConfiguration" "Mailbox setup conflict detected" true
    else if c == 0x0017
    then status c "InvalidSyncManagerConfiguration" "Sync manager assignment invalid" true
    else if c == 0x0018
    then status c "NoValidInputConfiguration" "Input process image configuration invalid" true
    else if c == 0x0019
    then status c "NoValidOutputConfiguration" "Output process image configuration invalid" true
    else if c == 0x001a
    then status c "SyncError" "Synchronization error in distributed clock / sync path" true
    else if c == 0x001b
    then status c "SyncManagerWatchdog" "Sync manager watchdog event" true
    else status c "Unknown" "Unrecognized AL status code" false

unfoldable pub decide : SlaveDiagnostic → ℕ → ℕ → ℕ → ℕ → RecoveryAction
unfolding same_state
decide d retry_count reconfigure_count max_retries max_reconfigure =
    if not d.available
    then failover
    else if same_state d.state op && (d.al_status_code == 0)
    then no_action
    else if d.al_status.recoverable && ltb retry_count max_retries
    then retry_transition
    else if ltb reconfigure_count max_reconfigure
    then reconfigure
    else failover
