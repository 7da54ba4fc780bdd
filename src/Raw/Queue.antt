-- ===== src/Raw/Queue.antt =====
-- The emergency queue of include/openethercat/transport/linux_raw_socket_transport.hpp against a description of what
-- it keeps: the newest messages, up to the limit, oldest first.
use openethercat.Base.{
  ℕ, zero, suc, ◌<◌, ◌+◌, ◌-◌, ◌≤◌, ◌≡◌, refl, sym, ap, ◌∙◌, not, List, [], ◌∷◌, ◌++◌,
  if◌then◌else◌, ltb, length, drop, arith, length-append, if_cases,
}
use openethercat.Mailbox.{EmergencyMessage}
use openethercat.Raw.{RawTransport, MailboxDiagnostics, trim, set_emergency_queue_limit}
use openethercat.Raw.Invariant.{IsSound}
use openethercat.Raw.Mailbox.{queue_emergency}

abbrev pub newest : ℕ → List EmergencyMessage → List EmergencyMessage
newest limit queue = drop (length queue - limit) queue

drop_none : (n : ℕ) (queue : List EmergencyMessage) → n ≡ 0 → drop n queue ≡ queue
drop_none n queue e = ap (λ (k : ℕ). drop k queue) e

one_more : (n limit : ℕ) → limit < suc n → suc n - limit ≡ suc (n - limit)
one_more n limit h = omega arith

just_one : (n limit : ℕ) → n ≡ suc limit → n - limit ≡ 1
just_one n limit h = omega arith

trim-newest :
    (rounds limit : ℕ) (queue : List EmergencyMessage) (d : MailboxDiagnostics)
    → length queue ≤ rounds + limit
    → (trim rounds limit queue d).0 ≡ newest limit queue
unfolding trim
trim-newest zero limit queue d h = sym (drop_none (length queue - limit) queue (omega arith))
trim-newest (suc rounds) limit [] d h = sym (drop_none (0 - limit) [] (omega arith))
trim-newest (suc rounds) limit (m ∷ queue) d h =
    if_cases (λ (r : List EmergencyMessage × MailboxDiagnostics). r.0 ≡ newest limit (m ∷ queue))
      (ltb limit (length (m ∷ queue)))
      (λ over.
        trim-newest rounds limit queue _ (omega arith)
        ∙ sym (ap (λ (n : ℕ). drop n (m ∷ queue)) (one_more (length queue) limit (ground arith))))
      (λ fits. sym (drop_none (suc (length queue) - limit) (m ∷ queue) (ground arith)))

drop_one-append :
    (queue : List EmergencyMessage) (m : EmergencyMessage)
    → 1 ≤ length queue
    → drop 1 queue ++ (m ∷ []) ≡ drop 1 (queue ++ (m ∷ []))
drop_one-append [] m h = absurd (omega arith)
drop_one-append (first ∷ queue) m h = refl

pushed :
    (limit : ℕ) (queue : List EmergencyMessage) (m : EmergencyMessage)
    → length queue ≤ limit
    → 1 ≤ limit
    → (if not (ltb (length queue) limit) then drop 1 queue else queue) ++ (m ∷ [])
      ≡ newest limit (queue ++ (m ∷ []))
pushed limit queue m fits positive =
    let all = queue ++ (m ∷ []) in
    let size : length all ≡ length queue + 1 = length-append queue (m ∷ []) in
    if_cases (λ (q : List EmergencyMessage). q ++ (m ∷ []) ≡ newest limit all)
      (not (ltb (length queue) limit))
      (λ full.
        let filled : limit ≤ length queue = ground arith in
        drop_one-append queue m (omega arith)
        ∙ sym (ap (λ (n : ℕ). drop n all) (just_one (length all) limit (omega arith))))
      (λ room.
        let free : length queue < limit = ground arith in
        sym (drop_none (length all - limit) all (omega arith)))

-- Pushed on, the queue keeps the newest messages up to its limit, and a new limit, or one if it is 0,
-- keeps the newest up to it; for a queue that is within a limit of one or more.
pub emergency_queue_newest :
    {N : Type 0} (m : EmergencyMessage) (limit : ℕ) (t : RawTransport N)
    → IsSound t
    → let least = if ltb limit 1 then 1 else limit in
      ((queue_emergency m t).emergencies
        ≡ newest t.emergency_queue_limit (t.emergencies ++ (m ∷ [])))
      × ((set_emergency_queue_limit limit t).emergencies ≡ newest least t.emergencies)
unfolding queue_emergency set_emergency_queue_limit
emergency_queue_newest m limit t s = (
  pushed t.emergency_queue_limit t.emergencies m s.queue_fits s.limit_positive,
  trim-newest (length t.emergencies) (if ltb limit 1 then 1 else limit) t.emergencies t.diagnostics
      (omega arith),
)
