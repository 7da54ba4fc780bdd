-- ===== src/Services/Drain.antt =====
-- Draining the emergencies of a transport that keeps them in a queue.
use openethercat.Base.{ℕ, zero, suc, ◌≡◌, refl, ap, List, [], ◌∷◌, Option, none, some, take, drop}
use openethercat.Mailbox.{EmergencyMessage}
use openethercat.Transport.{Transport}
use openethercat.Services.{drain_emergency_queue}

-- What a poll of a queue gives: nothing of an empty one, which stays empty, and else the first.
abbrev pub PolledIs :
    {T : Type 0}
    → (T → List EmergencyMessage)
    → List EmergencyMessage
    → T × Option EmergencyMessage
    → Type 0
PolledIs pending [] (after, polled) = (polled ≡ none) × (pending after ≡ [])
PolledIs pending (e ∷ rest) (after, polled) = (polled ≡ some e) × (pending after ≡ rest)

-- A transport whose emergencies wait in a queue, in the states where `IsUp` holds.
pub record EmergencyQueue {T : Type 0} (io : Transport T) : Type 1 where
  pub IsUp : T → Type 0
  pub pending : T → List EmergencyMessage
  pub poll_IsUp : (t : T) → IsUp t → IsUp (io.poll_emergency t).0
  pub poll_first : (t : T) → IsUp t → PolledIs pending (pending t) (io.poll_emergency t)

module _ {T : Type 0} {io : Transport T} (q : EmergencyQueue io) where
  drained :
      (n : ℕ) (t : T) (waiting : List EmergencyMessage)
      → q.IsUp t
      → q.pending t ≡ waiting
      → ((drain_emergency_queue io n t).1 ≡ take n waiting)
        × (q.pending (drain_emergency_queue io n t).0 ≡ drop n waiting)
  unfolding drain_emergency_queue
  drained zero t waiting up p = (refl, p)
  drained (suc n) t [] up p =
      let first = rw p at (q.poll_first t up) in rw (first.0, drain_emergency_queue) (refl, first.1)
  drained (suc n) t (e ∷ rest) up p =
      let first = rw p at (q.poll_first t up) in
      let later = drained n (io.poll_emergency t).0 rest (q.poll_IsUp t up) first.1 in
      rw (first.0, drain_emergency_queue) (ap (◌∷◌ e) later.0, later.1)

  -- On a transport that queues its emergencies, draining gives the oldest of them in their order,
  -- all of them or as many as the limit allows, and leaves the others waiting.
  pub drain-take :
      (n : ℕ) (t : T)
      → q.IsUp t
      → ((drain_emergency_queue io n t).1 ≡ take n (q.pending t))
        × (q.pending (drain_emergency_queue io n t).0 ≡ drop n (q.pending t))
  drain-take n t up = drained n t (q.pending t) up refl
