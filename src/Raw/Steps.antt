-- ===== src/Raw/Steps.antt =====
-- What the mailbox operations of the raw socket transport may do to its state, as a step relation:
-- `Move` for a call of the system, `Step` for a change of the record. The operations are shown to be
-- sequences of these steps in the child modules.
pub mod Datagrams
pub mod Messages
pub mod Transactions
pub mod Downloads
pub mod Mappings
pub mod Frames
pub mod Files
pub mod Calls
use openethercat.Base.{ℕ, ◌≡◌, List, Option, String}
use openethercat.Frame.{Mac}
use openethercat.Mailbox.{EmergencyMessage}
use openethercat.Raw.{
  RawTransport, System, Outcome, done, failed, Ready, readable, timed_out, unready,
  MailboxDiagnostics, MailboxErrorClass, no_class,
}
use openethercat.Raw.Datagram.{next8}
use openethercat.Raw.Mailbox.{queue_emergency}
use openethercat.Raw.Transaction.{fail_transaction}

-- Two counts that agree in the failures and their classes.
abbrev pub SameFailures : MailboxDiagnostics → MailboxDiagnostics → Type 0
SameFailures c d =
    (c.transactions_failed ≡ d.transactions_failed)
    × (c.error_timeout ≡ d.error_timeout)
    × (c.error_busy ≡ d.error_busy)
    × (c.error_parse_reject ≡ d.error_parse_reject)
    × (c.error_stale_counter ≡ d.error_stale_counter)
    × (c.error_abort ≡ d.error_abort)
    × (c.error_transport_io ≡ d.error_transport_io)
    × (c.error_unknown ≡ d.error_unknown)

module _ {N : Type 0} (sys : System N) where
  pub data Move : N → N → Type 0 where
    sleeping : (ns : ℕ) (n : N) → Move n (sys.sleep ns n)
    sending :
        (fd : Option ℕ) (if_index : ℕ) (mac : Mac) (bytes : List ℕ) (n : N)
        → Move n (sys.send_to fd if_index mac bytes n).0
    selecting : (fd : Option ℕ) (ms : ℕ) (n : N) → Move n (sys.select fd ms n).0
    receiving : (fd : Option ℕ) (capacity : ℕ) (n : N) → Move n (sys.receive fd capacity n).0

  pub data Moves (n : N) : N → Type 0 where
    still : Moves n n
    moves : {a b : N} → Moves n a → Move a b → Moves n b

  pub data Step : RawTransport N → RawTransport N → Type 0 where
    acts : (t : RawTransport N) (n : N) → Moves t.system n → Step t (record t { system = n })
    indexes : (t : RawTransport N) → Step t (record t { datagram_index = next8 t.datagram_index })
    frames : (t : RawTransport N) → Step t (record t { mailbox_counter = next8 t.mailbox_counter })
    notes :
        (t : RawTransport N) (counter : ℕ) → Step t (record t { last_working_counter = counter })
    counts :
        (t : RawTransport N) (d : MailboxDiagnostics)
        → SameFailures t.diagnostics d
        → Step t (record t { diagnostics = d })
    queues : (t : RawTransport N) (m : EmergencyMessage) → Step t (queue_emergency m t)
    succeeds : (t : RawTransport N) → Step t (record t { last_error_class = no_class })
    fails :
        (t : RawTransport N) (known : MailboxErrorClass) (text : String)
        → Step t (fail_transaction known text t)

  pub data Steps (t : RawTransport N) : RawTransport N → Type 0 where
    none_yet : Steps t t
    steps : {u v : RawTransport N} → Steps t u → Step u v → Steps t v

  Moves-trans : {a b c : N} → Moves a b → Moves b c → Moves a c
  Moves-trans h still = h
  Moves-trans h (moves k m) = moves (Moves-trans h k) m

  pub Steps-trans : {a b c : RawTransport N} → Steps a b → Steps b c → Steps a c
  Steps-trans h none_yet = h
  Steps-trans h (steps k s) = steps (Steps-trans h k) s

  -- The same of what an operation returns.
  pub record MovesTo {A : Type 0} (n : N) (r : N × A) : Type 0 where
    pub moved : Moves n r.0

  pub record StepsTo {A : Type 0} (t : RawTransport N) (r : RawTransport N × A) : Type 0 where
    pub stepped : Steps t r.0

  pub moved_to : {A : Type 0} {n : N} {r : N × A} → Moves n r.0 → MovesTo n r
  moved_to h = record { moved = h }

  pub stepped_to :
      {A : Type 0} {t : RawTransport N} {r : RawTransport N × A} → Steps t r.0 → StepsTo t r
  stepped_to h = record { stepped = h }

  pub then_moved : {A : Type 0} {n a : N} {r : N × A} → Moves n a → MovesTo a r → MovesTo n r
  then_moved h k = record { moved = Moves-trans h k.moved }

  pub then_to :
      {A : Type 0} {t u : RawTransport N} {r : RawTransport N × A}
      → Steps t u
      → StepsTo u r
      → StepsTo t r
  then_to h k = record { stepped = Steps-trans h k.stepped }

-- A property of all branches.
pub outcome_both {ℓ κ μ} :
    {A : Type ℓ} {B : Type κ} (P : B → Type μ) (o : Outcome A) {f : A → B} {g : String → B}
    → ((a : A) → P (f a))
    → ((why : String) → P (g why))
    → P (elim o [ done a ↦ f a | failed why ↦ g why ])
outcome_both P (done a) p q = p a
outcome_both P (failed why) p q = q why

pub ready_both {ℓ κ} :
    {B : Type ℓ} (P : B → Type κ) (r : Ready) {x y : B} {f : String → B}
    → P x
    → P y
    → ((why : String) → P (f why))
    → P (elim r [ readable ↦ x | timed_out ↦ y | unready why ↦ f why ])
ready_both P readable p q h = p
ready_both P timed_out p q h = q
ready_both P (unready why) p q h = h why
