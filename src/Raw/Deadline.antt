-- ===== src/Raw/Deadline.antt =====
-- The wait for an answer ends by the clock: the rounds that
-- src/transport/linux_raw_socket_transport_mailbox.cpp bounds only by a deadline are no more than the
-- milliseconds until then.
use openethercat.Base.{
  ℕ, zero, suc, ◌+◌, ◌*◌, ◌≤◌, ◌≡◌, refl, not, Bool, true, false, Option, String, if◌then◌else◌,
  ltb, arith,
}
use openethercat.Mailbox.{EscMailboxFrame}
use openethercat.Raw.{RawTransport, System, MailboxErrorClass}
use openethercat.Raw.Mailbox.{Route, queue_emergency}
use openethercat.Raw.Reading.{
  Waiting, Turn, return, continue, one_round, read_timed_out, read_until, mailbox_read_matching_coe,
}
use openethercat.Raw.Retry.{Answer, sleep_ms}
use openethercat.Raw.Steps.{
  Move, Moves, still, moves, Step, acts, indexes, frames, notes, counts, queues, succeeds, fails,
  Steps, none_yet, steps,
}
use openethercat.Raw.Steps.Messages.{one_round-StepsTo}
use openethercat.Raw.Transaction.{fail_transaction}

-- `std::chrono::steady_clock` does not go back, and `std::this_thread::sleep_for` blocks for the time it
-- is given or longer.
pub record IsSteady {N : Type 0} (sys : System N) : Type 0 where
  pub onward : (a b : N) → Move sys a b → sys.now a ≤ sys.now b
  pub sleeps : (ns : ℕ) (n : N) → sys.now n + ns ≤ sys.now (sys.sleep ns n)

module _ {N : Type 0} (sys : System N) (steady : IsSteady sys) where
  Moves-now : {a b : N} → Moves sys a b → sys.now a ≤ sys.now b
  Moves-now still = omega arith
  Moves-now (moves {a} {b} h m) = omega (arith, Moves-now h, steady.onward a b m)

  Step-now : {t u : RawTransport N} → Step sys t u → sys.now t.system ≤ sys.now u.system
  unfolding queue_emergency fail_transaction
  Step-now (acts t n h) = Moves-now h
  Step-now (indexes t) = omega arith
  Step-now (frames t) = omega arith
  Step-now (notes t n) = omega arith
  Step-now (counts t d h) = omega arith
  Step-now (queues t m) = omega arith
  Step-now (succeeds t) = omega arith
  Step-now (fails t known text) = omega arith

  Steps-now : {t u : RawTransport N} → Steps sys t u → sys.now t.system ≤ sys.now u.system
  Steps-now none_yet = omega arith
  Steps-now (steps h s) = omega (arith, Steps-now h, Step-now s)

if_same {ℓ} :
    {A : Type ℓ} (b : Bool) (x : A) {y z : A} → y ≡ z → (if b then x else y) ≡ (if b then x else z)
if_same true x e = refl
if_same false x e = e

turn_same {ℓ κ} :
    {A : Type ℓ} {B : Type κ} (o : Turn A) (f : Answer A → B) {g h : Waiting → B}
    → ((w : Waiting) → g w ≡ h w)
    → elim o [ return a ↦ f a | continue w ↦ g w ] ≡ elim o [ return a ↦ f a | continue w ↦ h w ]
turn_same (return a) f e = refl
turn_same (continue w) f e = e w

module _ {N : Type 0} (sys : System N) (over : ℕ → ℕ) {A : Type 0}
    (accept : EscMailboxFrame → Option A) (r : Route) (expected deadline : ℕ) where
  late :
      (rounds : ℕ) (w : Waiting) (t : RawTransport N)
      → deadline ≤ sys.now t.system
      → read_until sys over accept r expected deadline rounds w t
        ≡ read_timed_out sys over accept w t
  unfolding read_until
  late zero w t h = refl
  late (suc rounds) w t h =
      let at_once : ltb (sys.now t.system) deadline ≡ false = ground arith in rw at_once refl

  passed :
      IsSteady sys
      → (t u : RawTransport N) → sys.now t.system ≤ sys.now u.system
      → sys.now t.system + 1000000 ≤ sys.now (sleep_ms sys 1 u).system
  unfolding sleep_ms
  passed steady t u h = omega (arith, steady.sleeps 1000000 u.system)

  enough_rounds :
      IsSteady sys
      → (rounds many : ℕ) (w : Waiting) (t : RawTransport N) → rounds ≤ many
      → deadline ≤ sys.now t.system + rounds * 1000000
      → read_until sys over accept r expected deadline many w t
        ≡ read_until sys over accept r expected deadline rounds w t
  unfolding read_until
  enough_rounds steady zero many w t more h = late many w t (omega arith)
  enough_rounds steady (suc rounds) zero w t more h = absurd (omega arith)
  enough_rounds steady (suc rounds) (suc many) w t more h =
      let s = one_round sys over accept r expected w t in
      let slept = sleep_ms sys 1 s.0 in
      let later : sys.now t.system + 1000000 ≤ sys.now slept.system =
        passed steady t s.0
          (Steps-now sys steady (one_round-StepsTo sys over accept r expected w t).stepped) in
      if_same (not (ltb (sys.now t.system) deadline)) (read_timed_out sys over accept w t) (
        turn_same s.1 (λ a. (s.0, a))
          (λ waiting.
            enough_rounds steady rounds many waiting slept (omega arith) (omega (arith, later))))

-- With a clock that does not go back and a sleep that lasts, the loop that waits for an answer has
-- returned after as many rounds as the timeout has milliseconds: more rounds never change what it
-- returns, whatever the slave sends.
pub mailbox_read_matching_coe_ends :
    {N A : Type 0} (sys : System N)
    → IsSteady sys
    → (over : ℕ → ℕ) (accept : EscMailboxFrame → Option A) (r : Route) (expected : ℕ)
      (cls : MailboxErrorClass) (text : String) (rounds : ℕ) (t : RawTransport N)
    → t.timeout_ms ≤ rounds
    → read_until sys over accept r expected
        (sys.now t.system + t.timeout_ms * 1000000)
        rounds
        (record { idle_polls = 0; error_class = cls; text = text })
        t
      ≡ mailbox_read_matching_coe sys over accept r expected cls text t
unfolding mailbox_read_matching_coe
mailbox_read_matching_coe_ends sys steady over accept r expected cls text rounds t more =
    enough_rounds sys over accept r expected (sys.now t.system + t.timeout_ms * 1000000) steady
      t.timeout_ms rounds _ t more (omega arith)
