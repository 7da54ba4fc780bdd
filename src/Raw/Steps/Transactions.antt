-- ===== src/Raw/Steps/Transactions.antt =====
-- SDO transactions as sequences of steps.
use openethercat.Base.{
  ℕ, zero, suc, ◌-◌, refl, List, [], ◌++◌, Option, none, some, String, if_both, option_both,
}
use openethercat.Mailbox.{EscMailboxFrame}
use openethercat.Raw.{RawTransport, System, MailboxErrorClass, no_class, io_class}
use openethercat.Raw.Mailbox.{Route, mailbox_write_coe_payload}
use openethercat.Raw.SyncManagers.{read_sm_window_with_retry}
use openethercat.Raw.Steps.{
  Steps, none_yet, steps, counts, succeeds, fails, Steps-trans, StepsTo, stepped_to, then_to,
}
use openethercat.Raw.Steps.Datagrams.{read_sm_window-StepsTo}
use openethercat.Raw.Steps.Messages.{
  mailbox_write_coe_payload-StepsTo, mailbox_read_matching_coe-StepsTo,
}
use openethercat.Raw.Transaction.{
  Settled, settled, stopped, start_transaction, fail_call, resolve_route, configured_route, ask,
  force_timeout_test,
}
use openethercat.Raw.Upload.{
  ask_segment, upload_segments, upload_answered, ask_upload, sdo_upload_raw, accept_initiate_upload,
  accept_upload_segment,
}
use openethercat.Sdo.{SdoAddress, build_initiate_upload_request, build_upload_segment_request}

pub settled_both {ℓ κ μ} :
    {A : Type ℓ} {B : Type κ} (P : B → Type μ) (o : Settled A) {f : A → String → B}
    {g : MailboxErrorClass → String → ℕ → B}
    → ((a : A) (text : String) → P (f a text))
    → ((cls : MailboxErrorClass) (text : String) (code : ℕ) → P (g cls text code))
    → P (elim o [ settled a text ↦ f a text | stopped cls text code ↦ g cls text code ])
settled_both P (settled a text) p q = p a text
settled_both P (stopped cls text code) p q = q cls text code

module _ {N : Type 0} (sys : System N) where
  -- A call that may use up its fuel.
  pub data MayStepTo {A : Type 0} (t : RawTransport N) : Option (RawTransport N × A) → Type 0 where
    unfinished : MayStepTo t none
    finished : {r : RawTransport N × A} → Steps sys t r.0 → MayStepTo t (some r)

  pub then_may :
      {A : Type 0} {t u : RawTransport N} {o : Option (RawTransport N × A)}
      → Steps sys t u
      → MayStepTo u o
      → MayStepTo t o
  then_may h unfinished = unfinished
  then_may h (finished k) = finished (Steps-trans sys h k)

  pub MayStepTo-some :
      {A : Type 0} {t : RawTransport N} {r : RawTransport N × A}
      → MayStepTo t (some r)
      → Steps sys t r.0
  MayStepTo-some (finished h) = h

  pub fail_call-StepsTo :
      (bytes : List ℕ) (cls : MailboxErrorClass) (text : String) (code : ℕ) (t : RawTransport N)
      → StepsTo sys t (fail_call bytes cls text code t)
  unfolding fail_call
  fail_call-StepsTo bytes cls text code t = stepped_to sys (steps none_yet (fails t cls text))

  pub start_transaction-Steps : (t : RawTransport N) → Steps sys t (start_transaction t)
  unfolding start_transaction
  start_transaction-Steps t =
      steps none_yet (counts t _ (refl, refl, refl, refl, refl, refl, refl, refl))

  module _ (over : ℕ → ℕ) where
    pub resolve_route-StepsTo :
        (r : Route) (text : String) (t : RawTransport N)
        → StepsTo sys t (resolve_route sys over r text t)
    unfolding resolve_route
    resolve_route-StepsTo r text t =
        let s0 = read_sm_window_with_retry sys over r.force_timeout r.retry r.adp 0 text t in
        let s1 =
          read_sm_window_with_retry sys over r.force_timeout r.retry r.adp 1 s0.1.text s0.0 in
        let read0 : Steps sys t s0.0 =
          (read_sm_window-StepsTo sys over r.force_timeout r.retry r.adp 0 text t).stepped in
        let read1 : Steps sys t s1.0 =
          Steps-trans sys read0
            (read_sm_window-StepsTo sys over r.force_timeout r.retry r.adp 1 s0.1.text
              s0.0).stepped in
        option_both (StepsTo sys t) s0.1.value (stepped_to sys read0) (λ sm0.
          option_both (StepsTo sys t) s1.1.value (stepped_to sys read1)
            (λ sm1. stepped_to sys read1))

    pub ask-StepsTo :
        {A : Type 0} (r : Route) (request : List ℕ) (accept : EscMailboxFrame → Option A)
        (text : String) (t : RawTransport N)
        → StepsTo sys t (ask sys over r request accept text t)
    unfolding ask
    ask-StepsTo r request accept text t =
        let w = mailbox_write_coe_payload sys over r request text t in
        let written : Steps sys t w.0 =
          (mailbox_write_coe_payload-StepsTo sys over r request text t).stepped in
        option_both (StepsTo sys t) w.1.value (stepped_to sys written) (λ counter.
          then_to sys written
            (mailbox_read_matching_coe-StepsTo sys over accept r counter no_class w.1.text w.0))

    ask_segment-StepsTo :
        (r : Route) (toggle : ℕ) (text : String) (t : RawTransport N)
        → StepsTo sys t (ask_segment sys over r toggle text t)
    unfolding ask_segment
    ask_segment-StepsTo r toggle text t =
        stepped_to sys
          (ask-StepsTo r (build_upload_segment_request toggle) (accept_upload_segment over toggle)
            text t).stepped

    ask_upload-StepsTo :
        (r : Route) (address : SdoAddress) (text : String) (t : RawTransport N)
        → StepsTo sys t (ask_upload sys over r address text t)
    unfolding ask_upload
    ask_upload-StepsTo r address text t =
        stepped_to sys
          (ask-StepsTo r (build_initiate_upload_request address)
            (accept_initiate_upload over address) text t).stepped

    upload_segments-MayStepTo :
        (r : Route) (fuel toggle : ℕ) (bytes : List ℕ) (text : String) (t : RawTransport N)
        → MayStepTo t (upload_segments sys over r fuel toggle bytes text t)
    unfolding upload_segments
    upload_segments-MayStepTo r zero toggle bytes text t = unfinished
    upload_segments-MayStepTo r (suc fuel) toggle bytes text t =
        let s = ask_segment sys over r toggle text t in
        let asked : Steps sys t s.0 = (ask_segment-StepsTo r toggle text t).stepped in
        settled_both (MayStepTo t) s.1
          (λ seg left.
            if_both (MayStepTo t) seg.last_segment (finished (steps asked (succeeds s.0))) (
              then_may asked
                (upload_segments-MayStepTo r fuel (1 - toggle) (bytes ++ seg.bytes) left s.0)))
          (λ cls why code.
            finished (Steps-trans sys asked (fail_call-StepsTo bytes cls why code s.0).stepped))

    upload_answered-MayStepTo :
        (r : Route) (fuel : ℕ) (address : SdoAddress) (text : String) (t : RawTransport N)
        → MayStepTo t (upload_answered sys over r fuel (ask_upload sys over r address text t))
    unfolding upload_answered
    upload_answered-MayStepTo r fuel address text t =
        let s = ask_upload sys over r address text t in
        let asked : Steps sys t s.0 = (ask_upload-StepsTo r address text t).stepped in
        settled_both (MayStepTo t) s.1
          (λ p left.
            if_both (MayStepTo t) p.expedited (finished asked)
              (then_may asked (upload_segments-MayStepTo r fuel 0 [] left s.0)))
          (λ cls why code.
            finished (Steps-trans sys asked (fail_call-StepsTo [] cls why code s.0).stepped))

    pub sdo_upload_raw-MayStepTo :
        (fuel position : ℕ) (address : SdoAddress) (t : RawTransport N)
        → MayStepTo t (sdo_upload_raw sys over fuel position address t)
    unfolding sdo_upload_raw
    sdo_upload_raw-MayStepTo fuel position address t =
        let started = start_transaction t in
        let s = resolve_route sys over (configured_route sys over position started) "" started in
        let begun : Steps sys t started = start_transaction-Steps t in
        let resolved : Steps sys t s.0 =
          Steps-trans sys begun
            (resolve_route-StepsTo (configured_route sys over position started) ""
              started).stepped in
        let asked = then_may resolved (upload_answered-MayStepTo s.1.0 fuel address s.1.1 s.0) in
        option_both (MayStepTo t) t.socket_fd
          (if_both (MayStepTo t) (force_timeout_test sys over) asked (
            finished (
              Steps-trans sys begun
                (fail_call-StepsTo [] io_class "transport not open" 0 started).stepped)))
          (λ fd. asked)
