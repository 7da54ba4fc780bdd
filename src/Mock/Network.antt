-- ===== src/Mock/Network.antt =====
-- Queues, states and exchanges of the simulated network.
use openethercat.Base.{
  ℕ, zero, suc, ◌+◌, ◌≡◌, refl, sym, ap, ◌∙◌, arith, Bool, true, List, [], ◌∷◌, ◌++◌, Option, none,
  some, String, length, replicate, map,
}
use mathlib.Core.List.{append-nil, append_assoc}
use openethercat.Base.Maps.{nat_key}
use openethercat.Mailbox.{EmergencyMessage}
use openethercat.Services.Drain.{EmergencyQueue, PolledIs}
use openethercat.Mock.{MockTransport, exchange_mock}
use openethercat.Mock.Services.{mock, poll_emergency_mock, eoe_send_mock, eoe_receive_mock}
use openethercat.Mock.Inputs.{inject_exchange_failures}

pub polled_first :
    (m : MockTransport) (waiting : List EmergencyMessage)
    → m.opened ≡ true
    → m.emergencies ≡ waiting
    → ((poll_emergency_mock m).0.opened ≡ true)
      × PolledIs MockTransport.emergencies waiting (poll_emergency_mock m)
unfolding poll_emergency_mock
polled_first m [] up e = simp (up, e) (refl, (refl, refl))
polled_first m (first ∷ rest) up e = simp (up, e) (refl, (refl, refl))

-- The simulated network keeps its emergencies in a queue, while it is open.
unfoldable pub mock_queue : (hash : String → ℕ) → EmergencyQueue (mock hash)
unfolding mock
mock_queue hash = record {
  IsUp = λ m. m.opened ≡ true;
  pending = MockTransport.emergencies;
  poll_IsUp = λ m up. (polled_first m m.emergencies up refl).0;
  poll_first = λ m up. (polled_first m m.emergencies up refl).1;
}

-- Frames sent to a slave one after the other.
send_all : ℕ → List (List ℕ) → MockTransport → MockTransport
unfolding eoe_send_mock
send_all position [] m = m
send_all position (frame ∷ rest) m = send_all position rest (eoe_send_mock position frame "" m).0

-- The results of a number of receptions.
receive_all : ℕ → ℕ → MockTransport → List (Bool × List ℕ)
unfolding eoe_receive_mock
receive_all position zero m = []
receive_all position (suc n) m =
    let (after, (ok, (frame, error))) = eoe_receive_mock position [] "" m in
    (ok, frame) ∷ receive_all position n after

-- A number of exchanges of the same outputs, with whether each succeeded.
pub exchanges : ℕ → List ℕ → MockTransport → List (Option (List ℕ))
unfolding exchange_mock
exchanges zero tx m = []
exchanges (suc n) tx m =
    let (after, received) = exchange_mock tx [] m in received ∷ exchanges n tx after

sent :
    (position : ℕ) (frame : List ℕ) (m : MockTransport)
    → m.opened ≡ true
    → ((eoe_send_mock position frame "" m).0.opened ≡ true)
      × ((eoe_send_mock position frame "" m).0.eoe_frames
          ≡ m.eoe_frames ++ ((position, frame) ∷ []))
unfolding eoe_send_mock
sent position frame m up = simp up (refl, refl)

send_all_queue :
    (position : ℕ) (frames : List (List ℕ)) (m : MockTransport)
    → m.opened ≡ true
    → ((send_all position frames m).opened ≡ true)
      × ((send_all position frames m).eoe_frames
          ≡ m.eoe_frames ++ map (λ frame. (position, frame)) frames)
unfolding send_all eoe_send_mock
send_all_queue position [] m up = (up, sym (append-nil m.eoe_frames))
send_all_queue position (frame ∷ rest) m up =
    let later =
      send_all_queue position rest (eoe_send_mock position frame "" m).0
        (sent position frame m up).0 in
    (
      later.0,
      later.1
          ∙ (ap (λ q. q ++ map (λ f. (position, f)) rest) (sent position frame m up).1
              ∙ append_assoc m.eoe_frames _ _),
    )

received :
    (position : ℕ) (frame : List ℕ) (rest : List (ℕ × List ℕ)) (m : MockTransport)
    → m.opened ≡ true
    → m.eoe_frames ≡ (position, frame) ∷ rest
    → eoe_receive_mock position [] "" m ≡ (record m { eoe_frames = rest }, (true, (frame, "")))
unfolding eoe_receive_mock
received position frame rest m up e = simp (up, e) (ground arith)

received_all :
    (position : ℕ) (frames : List (List ℕ)) (m : MockTransport)
    → m.opened ≡ true
    → m.eoe_frames ≡ map (λ frame. (position, frame)) frames
    → receive_all position (length frames) m ≡ map (λ frame. (true, frame)) frames
unfolding receive_all eoe_receive_mock
received_all position [] m up e = refl
received_all position (frame ∷ rest) m up e = rw (received position frame _ m up e) (
    ap (◌∷◌ (true, frame)) (
      received_all position rest (record m { eoe_frames = map (λ f. (position, f)) rest }) up refl))

-- The Ethernet frames sent to a slave are received from it, all of them and in the order in which
-- they were sent, if no other frame was waiting.
receive-send_all :
    (position : ℕ) (frames : List (List ℕ)) (m : MockTransport)
    → m.opened ≡ true
    → m.eoe_frames ≡ []
    → receive_all position (length frames) (send_all position frames m)
      ≡ map (λ frame. (true, frame)) frames
receive-send_all position frames m up e =
    let sent = send_all_queue position frames m up in
    received_all position frames (send_all position frames m) sent.0
      (sent.1 ∙ ap (λ q. q ++ map (λ frame. (position, frame)) frames) e)

exchange_succeeds :
    (tx : List ℕ) (m : MockTransport)
    → m.opened ≡ true
    → length tx ≡ length m.last_outputs
    → m.remaining_exchange_failures ≡ 0
    → exchange_mock tx [] m
      ≡ (record m { last_outputs = tx; last_working_counter = 1 }, some m.inputs)
unfolding exchange_mock
exchange_succeeds tx m up size e = ground arith

exchange_injected :
    (tx : List ℕ) (m : MockTransport) (failures : ℕ)
    → m.opened ≡ true
    → length tx ≡ length m.last_outputs
    → exchange_mock tx [] (record m { remaining_exchange_failures = suc failures }) ≡ (
      record m { remaining_exchange_failures = failures; error = "injected exchange failure" },
      none,
    )
unfolding exchange_mock
exchange_injected tx m failures up size = ground arith

exchanges_clean :
    (n : ℕ) (tx : List ℕ) (m : MockTransport)
    → m.opened ≡ true
    → length tx ≡ length m.last_outputs
    → m.remaining_exchange_failures ≡ 0
    → exchanges n tx m ≡ replicate n (some m.inputs)
unfolding exchanges exchange_mock
exchanges_clean zero tx m up size e = refl
exchanges_clean (suc n) tx m up size e = rw (exchange_succeeds tx m up size e) (
    ap (◌∷◌ (some m.inputs))
      (exchanges_clean n tx (record m { last_outputs = tx; last_working_counter = 1 }) up refl e))

exchanges_failing :
    (failures n rounds : ℕ) (tx : List ℕ) (m : MockTransport)
    → m.opened ≡ true
    → length tx ≡ length m.last_outputs
    → rounds ≡ failures + n
    → exchanges rounds tx (record m { remaining_exchange_failures = failures })
      ≡ replicate failures none ++ replicate n (some m.inputs)
unfolding exchanges
exchanges_failing zero n rounds tx m up size e =
    ap (λ k. exchanges k tx (record m { remaining_exchange_failures = 0 })) (omega (arith, e))
    ∙ exchanges_clean n tx (record m { remaining_exchange_failures = 0 }) up size refl
exchanges_failing (suc failures) n zero tx m up size e = absurd (omega (arith, e))
exchanges_failing (suc failures) n (suc rounds) tx m up size e =
    rw (exchange_injected tx m failures up size) (
      ap (◌∷◌ none) (
        exchanges_failing failures n rounds tx (record m { error = "injected exchange failure" }) up
          size (omega (arith, e))))

-- On an open network, exchanges of the right size fail exactly as often as failures were injected,
-- and after that each of them gives the inputs.
exchanges-inject_exchange_failures :
    (failures n : ℕ) (tx : List ℕ) (m : MockTransport)
    → m.opened ≡ true
    → length tx ≡ length m.last_outputs
    → exchanges (failures + n) tx (inject_exchange_failures m failures)
      ≡ replicate failures none ++ replicate n (some m.inputs)
unfolding inject_exchange_failures
exchanges-inject_exchange_failures failures n tx m up size =
    exchanges_failing failures n (failures + n) tx m up size refl
