-- ===== src/Raw/Sim.antt =====
-- A network that answers every datagram, with the payload sent or with the next one of a script.
use openethercat.Base.{
  ℕ, ◌+◌, ◌-◌, ◌*◌, ◌≤◌, ◌≡◌, false, List, [], ◌∷◌, ◌++◌, none, some, length, take, arith,
  length-take, replicate,
}
use openethercat.Frame.{Mac, DatagramRequest}
use openethercat.Raw.{
  RawTransport, System, Outcome, done, failed, Ready, readable, timed_out, no_diagnostics,
  no_dc_diagnostics, poll, no_class,
}
use openethercat.Raw.Deadline.{IsSteady}
use openethercat.Raw.Mailbox.{Route}
use openethercat.Raw.Replies.{IsBounded}
use openethercat.Raw.Retry.{MailboxRetryConfig}
use openethercat.Raw.Steps.{Move, sleeping, sending, selecting, receiving}

pub record Net : Type 0 where
  pub clock : ℕ
  pub script : List (List ℕ)
  pub inbox : List (List ℕ)

-- The frame with its payload replaced, and a working counter of one.
abbrev with_payload : List ℕ → List ℕ → List ℕ
with_payload frame payload = take 26 frame ++ payload ++ (1 ∷ 0 ∷ [])

abbrev pub deliver : List ℕ → Net → Net
deliver frame n = elim n.script [
  | [] ↦ record n { inbox = n.inbox ++ ((take (length frame - 2) frame ++ (1 ∷ 0 ∷ [])) ∷ []) }
  | payload ∷ rest ↦ record n {
    script = rest;
    inbox = n.inbox ++ (with_payload frame payload ∷ []);
  }
]

abbrev pub broadcast : Mac
broadcast = record { m0 = 255; m1 = 255; m2 = 255; m3 = 255; m4 = 255; m5 = 255 }

abbrev pub sim : System Net
sim = record {
  now = λ n. n.clock;
  sleep = λ ns n. record n { clock = n.clock + ns };
  socket = λ n. (n, done 3);
  interface_index = λ fd name n. (n, done 2);
  hardware_address = λ fd name n. (n, done broadcast);
  bind = λ fd index n. (n, none);
  close_socket = λ fd n. n;
  send_to = λ fd index mac bytes n. (deliver bytes n, none);
  select = λ fd ms n. elim n.inbox [
    | [] ↦ (record n { clock = n.clock + ms * 1000000 }, timed_out)
    | frame ∷ rest ↦ (n, readable)
  ];
  receive = λ fd capacity n. elim n.inbox [
    | [] ↦ (n, failed "no frame")
    | frame ∷ rest ↦ (record n { inbox = rest }, done (take capacity frame))
  ];
  getenv = λ name. none;
  stoi = λ text. none;
  stoul = λ text. none;
}

abbrev pub zeros : ℕ → ℕ
zeros i = 0

abbrev pub raw_at : {N : Type 0} → N → RawTransport N
raw_at n = record {
  ifname = "eth0";
  secondary_ifname = "";
  socket_fd = some 3;
  secondary_socket_fd = none;
  if_index = 2;
  secondary_if_index = 0;
  source_mac = broadcast;
  destination_mac = broadcast;
  datagram_index = 7;
  logical_address = 0;
  expected_working_counter = 1;
  last_working_counter = 0;
  last_output_working_counter = 0;
  last_input_working_counter = 0;
  max_frames_per_cycle = 4;
  redundancy_enabled = false;
  last_frame_used_secondary = false;
  mailbox_write_offset = 0x1000;
  mailbox_write_size = 32;
  mailbox_read_offset = 0x1080;
  mailbox_read_size = 32;
  mailbox_counter = 0;
  timeout_ms = 2;
  error = "";
  output_windows = [];
  emergencies = [];
  diagnostics = no_diagnostics;
  status_mode = poll;
  emergency_queue_limit = 256;
  last_error_class = no_class;
  dc_diagnostics = no_dc_diagnostics;
  system = n;
}

abbrev pub quiet : Net
quiet = record { clock = 0; script = []; inbox = [] }

abbrev pub raw : RawTransport Net
raw = raw_at quiet

abbrev pub request : DatagramRequest
request = record { command = 1; datagram_index = 7; adp = 0; ado = 0x130; payload = 9 ∷ 8 ∷ [] }

list_both {ℓ} :
    {A B : Type 0} (P : B → Type ℓ) (xs : List A) {x : B} {f : A → List A → B}
    → P x
    → ((a : A) (rest : List A) → P (f a rest))
    → P (elim xs [ [] ↦ x | a ∷ rest ↦ f a rest ])
list_both P [] p q = p
list_both P (a ∷ rest) p q = q a rest

pub sim-IsBounded : IsBounded sim
unfolding IsBounded
sim-IsBounded fd capacity n frame =
    list_both (λ (r : Net × Outcome (List ℕ)). r.1 ≡ done frame → length frame ≤ capacity) n.inbox
      (λ h. cc) (λ first rest h. ground (arith, length-take capacity first))

pub sim-IsSteady : IsSteady sim
sim-IsSteady = record { onward = λ a b m. onward m; sleeps = λ ns n. omega arith }
  where
    onward : {a b : Net} → Move sim a b → sim.now a ≤ sim.now b
    onward (sleeping ns n) = omega arith
    onward (sending fd index mac bytes n) =
        list_both (λ (m : Net). n.clock ≤ m.clock) n.script (omega arith) (λ p rest. omega arith)
    onward (selecting fd ms n) =
        list_both (λ (r : Net × Ready). n.clock ≤ r.0.clock) n.inbox (omega arith)
          (λ p rest. omega arith)
    onward (receiving fd capacity n) =
        list_both (λ (r : Net × Outcome (List ℕ)). n.clock ≤ r.0.clock) n.inbox (omega arith)
          (λ p rest. omega arith)

abbrev pub scripted : List (List ℕ) → RawTransport Net
scripted script = raw_at (record { clock = 0; script = script; inbox = [] })

-- The settings of a mailbox of 32 bytes that is polled.
abbrev pub tuning : MailboxRetryConfig
tuning = record { retries = 2; backoff_base_ms = 1; backoff_max_ms = 20 }

abbrev pub route : Route
route = record {
  adp = 0;
  slave_position = 0;
  write_offset = 0x1000;
  write_size = 32;
  read_offset = 0x1080;
  read_size = 32;
  mode = poll;
  force_timeout = false;
  retry = tuning;
}

-- A CoE frame with counter 0, padded to the read window.
abbrev pub mailbox_bytes : ℕ → List ℕ → List ℕ
mailbox_bytes counter payload =
    (length payload ∷ 0 ∷ 0 ∷ 0 ∷ 0 ∷ (48 + counter) ∷ [])
    ++ payload
    ++ replicate (26 - length payload) 0
