-- ===== src/Diagnostics/Policy.antt =====
-- How the recovery policy escalates.
use openethercat.Base.{ℕ, ◌≤◌, ◌<◌, ◌≡◌, ◌≢◌, ◌↔◌, ◌⊎◌, true, false, arith}
use openethercat.SlaveState.{op, same_state, same_state_iff}
use openethercat.Diagnostics.{
  no_action, retry_transition, reconfigure, failover, SlaveDiagnostic, decide,
}

-- A slave that answers, and is not in OP or shows an AL status.
abbrev pub IsFaulty : SlaveDiagnostic → Type 0
IsFaulty d = (d.available ≡ true) × ((d.state ≢ op) ⊎ (d.al_status_code ≢ 0))

-- No transition is left to try.
abbrev pub NoRetry : SlaveDiagnostic → ℕ → ℕ → Type 0
NoRetry d r max_r = (d.al_status.recoverable ≡ false) ⊎ (max_r ≤ r)

-- The policy in full: a slave is left alone exactly if it answers, is in OP and shows no AL status. A
-- faulty slave that answers is retried exactly while its status is recoverable and retries are left,
-- else reconfigured exactly while reconfigurations are left, and else failed over; a slave that does
-- not answer is failed over at once.
pub decide_escalates :
    (d : SlaveDiagnostic) (r c max_r max_c : ℕ)
    → ((decide d r c max_r max_c ≡ no_action)
        ↔ ((d.available ≡ true) × (d.state ≡ op) × (d.al_status_code ≡ 0)))
      × ((decide d r c max_r max_c ≡ retry_transition)
          ↔ (IsFaulty d × (d.al_status.recoverable ≡ true) × (r < max_r)))
      × ((decide d r c max_r max_c ≡ reconfigure) ↔ (IsFaulty d × NoRetry d r max_r × (c < max_c)))
      × ((decide d r c max_r max_c ≡ failover)
          ↔ ((d.available ≡ false) ⊎ (IsFaulty d × NoRetry d r max_r × (max_c ≤ c))))
unfolding decide
decide_escalates d r c max_r max_c = (
  (λ h. ground (arith, same), λ h. ground (arith, same)),
  (λ h. ground (arith, same), λ h. ground (arith, same)),
  (λ h. ground (arith, same), λ h. ground (arith, same)),
  (λ h. ground (arith, same), λ h. ground (arith, same)),
)
  where
    same : (same_state d.state op ≡ true) ↔ (d.state ≡ op)
    same = same_state_iff d.state op
