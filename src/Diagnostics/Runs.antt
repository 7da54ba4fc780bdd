-- ===== src/Diagnostics/Runs.antt =====
-- The theorems about states and the recovery policy at concrete inputs.
use openethercat.Base.{◌≡◌, refl, true, inl, arith}
use openethercat.SlaveState.{safe_op}
use openethercat.Diagnostics.{
  SlaveDiagnostic, retry_transition, decide, decode_al_status, no_action,
}
use openethercat.Diagnostics.Policy.{decide_escalates}

abbrev mailbox_fault : SlaveDiagnostic
mailbox_fault = record {
  identity = record { name = "Drive"; alias = 0; position = 2; vendor_id = 1; product_code = 7 };
  available = true;
  state = safe_op;
  al_status_code = 0x16;
  al_status = record {
    code = 0x16;
    name = "InvalidMailboxConfiguration";
    description = "Mailbox setup conflict detected";
    recoverable = true;
  };
  suggested_action = no_action;
}

decoded : decode_al_status 0x16 ≡ mailbox_fault.al_status
unfolding decode_al_status
decoded = refl

decide_escalates_example : decide mailbox_fault 2 0 3 1 ≡ retry_transition
decide_escalates_example =
    (decide_escalates mailbox_fault 2 0 3 1).1.1 ((refl, inl (λ e. cc)), refl, omega arith)
