-- ===== src/Services/Runs.antt =====
-- Draining the simulated network's emergencies.
use openethercat.Base.{ℕ, ◌≡◌, refl, [], ◌∷◌, String}
use openethercat.Mailbox.{EmergencyMessage}
use openethercat.Mock.{MockTransport, new_mock, open_mock}
use openethercat.Mock.Inputs.{enqueue_emergency}
use openethercat.Mock.Services.{mock}
use openethercat.Mock.Network.{mock_queue}
use openethercat.Services.{drain_emergency_queue}
use openethercat.Services.Drain.{drain-take}

abbrev emergency : ℕ → EmergencyMessage
emergency code = record {
  error_code = code;
  error_register = 1;
  manufacturer_data = 0 ∷ 0 ∷ 0 ∷ 0 ∷ 0 ∷ [];
  slave_position = 2;
}

abbrev no_hash : String → ℕ
no_hash s = 0

abbrev waiting : MockTransport
unfolding enqueue_emergency open_mock new_mock
waiting =
    enqueue_emergency (enqueue_emergency (open_mock (new_mock 1 1)).0 (emergency 0x1000))
      (emergency 0x2000)

drain-take_example : (drain_emergency_queue (mock no_hash) 1 waiting).1 ≡ emergency 0x1000 ∷ []
unfolding mock_queue waiting
drain-take_example = (drain-take (mock_queue no_hash) 1 waiting refl).0
