-- ===== src/Raw/Invariant.antt =====
-- What holds of the raw socket transport whatever the network answers: the bounds of its counters, the
-- bound of the emergency queue, and the failures counted by class.
use openethercat.Base.{
  ℕ, ◌+◌, ◌%◌, ◌≤◌, ◌<◌, ◌≡◌, refl, [], ◌∷◌, String, arith, length, ◌≢◌, length-append, length-drop,
  drop,
}
use openethercat.Mailbox.{EmergencyMessage}
use openethercat.Raw.{
  RawTransport, System, MailboxDiagnostics, MailboxErrorClass, no_class, timeout_class, busy_class,
  parse_class, stale_class, abort_class, io_class, unknown_class,
}
use openethercat.Raw.Errors.{increment_class, first_class}
use openethercat.Raw.Mailbox.{queue_emergency}
use openethercat.Raw.Steps.{
  Step, acts, indexes, frames, notes, counts, queues, succeeds, fails, Steps, none_yet, steps,
  SameFailures,
}
use openethercat.Raw.Transaction.{fail_transaction, failure_class}

-- All failures by class, in 64 bits.
abbrev pub failures : MailboxDiagnostics → ℕ
failures d =
    (d.error_timeout + d.error_busy + d.error_parse_reject + d.error_stale_counter + d.error_abort
      + d.error_transport_io + d.error_unknown)
    % 18446744073709551616

module _ {N : Type 0} where
  pub record IsSound (t : RawTransport N) : Type 0 where
    pub queue_fits : length t.emergencies ≤ t.emergency_queue_limit
    pub limit_positive : 1 ≤ t.emergency_queue_limit
    pub index_byte : t.datagram_index < 256
    pub counter_byte : t.mailbox_counter < 256
    pub balanced : t.diagnostics.transactions_failed ≡ failures t.diagnostics

failures-same :
    (c d : MailboxDiagnostics)
    → SameFailures c d
    → c.transactions_failed ≡ failures c
    → d.transactions_failed ≡ failures d
failures-same c d s h = omega arith

first_class-unknown : (cls : MailboxErrorClass) → first_class cls unknown_class ≢ no_class
unfolding first_class
first_class-unknown cls h = ground arith

failure_class-is_some :
    (known : MailboxErrorClass) (text : String) → failure_class known text ≢ no_class
unfolding failure_class
failure_class-is_some known text = first_class-unknown (first_class known _)

failures-increment :
    (cls : MailboxErrorClass) (d : MailboxDiagnostics)
    → cls ≢ no_class
    → d.transactions_failed ≡ failures d
    → ((increment_class cls d).transactions_failed + 1) % 18446744073709551616
      ≡ failures (increment_class cls d)
unfolding increment_class
failures-increment no_class d k h = absurd (k refl)
failures-increment timeout_class d k h = omega arith
failures-increment busy_class d k h = omega arith
failures-increment parse_class d k h = omega arith
failures-increment stale_class d k h = omega arith
failures-increment abort_class d k h = omega arith
failures-increment io_class d k h = omega arith
failures-increment unknown_class d k h = omega arith

module _ {N : Type 0} (sys : System N) where
  length_of_queue :
      (m : EmergencyMessage) (t : RawTransport N)
      → IsSound t
      → length (queue_emergency m t).emergencies ≤ t.emergency_queue_limit
  unfolding queue_emergency
  length_of_queue m t s = ground (
    arith,
    s.queue_fits,
    s.limit_positive,
    length-append t.emergencies (m ∷ []),
    length-append (drop 1 t.emergencies) (m ∷ []),
    length-drop 1 t.emergencies,
  )

  queued-IsSound :
      (m : EmergencyMessage) (t : RawTransport N) → IsSound t → IsSound (queue_emergency m t)
  unfolding queue_emergency
  queued-IsSound m t s = record {
    queue_fits = length_of_queue m t s;
    limit_positive = s.limit_positive;
    index_byte = s.index_byte;
    counter_byte = s.counter_byte;
    balanced = s.balanced;
  }

  failed-IsSound :
      (known : MailboxErrorClass) (text : String) (t : RawTransport N)
      → IsSound t
      → IsSound (fail_transaction known text t)
  unfolding fail_transaction
  failed-IsSound known text t s = record {
    queue_fits = s.queue_fits;
    limit_positive = s.limit_positive;
    index_byte = s.index_byte;
    counter_byte = s.counter_byte;
    balanced =
        failures-increment (failure_class known text) t.diagnostics
          (failure_class-is_some known text) s.balanced;
  }

  pub Step-IsSound : {t u : RawTransport N} → Step sys t u → IsSound t → IsSound u
  Step-IsSound (acts t n h) s = record {
    queue_fits = s.queue_fits;
    limit_positive = s.limit_positive;
    index_byte = s.index_byte;
    counter_byte = s.counter_byte;
    balanced = s.balanced;
  }
  Step-IsSound (indexes t) s = record {
    queue_fits = s.queue_fits;
    limit_positive = s.limit_positive;
    index_byte = omega arith;
    counter_byte = s.counter_byte;
    balanced = s.balanced;
  }
  Step-IsSound (frames t) s = record {
    queue_fits = s.queue_fits;
    limit_positive = s.limit_positive;
    index_byte = s.index_byte;
    counter_byte = omega arith;
    balanced = s.balanced;
  }
  Step-IsSound (notes t n) s = record {
    queue_fits = s.queue_fits;
    limit_positive = s.limit_positive;
    index_byte = s.index_byte;
    counter_byte = s.counter_byte;
    balanced = s.balanced;
  }
  Step-IsSound (counts t d h) s = record {
    queue_fits = s.queue_fits;
    limit_positive = s.limit_positive;
    index_byte = s.index_byte;
    counter_byte = s.counter_byte;
    balanced = failures-same t.diagnostics d h s.balanced;
  }
  Step-IsSound (queues t m) s = queued-IsSound m t s
  Step-IsSound (succeeds t) s = record {
    queue_fits = s.queue_fits;
    limit_positive = s.limit_positive;
    index_byte = s.index_byte;
    counter_byte = s.counter_byte;
    balanced = s.balanced;
  }
  Step-IsSound (fails t known text) s = failed-IsSound known text t s

  pub Steps-IsSound : {t u : RawTransport N} → Steps sys t u → IsSound t → IsSound u
  Steps-IsSound none_yet s = s
  Steps-IsSound (steps h st) s = Step-IsSound st (Steps-IsSound h s)
