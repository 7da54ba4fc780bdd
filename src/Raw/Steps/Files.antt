-- ===== src/Raw/Steps/Files.antt =====
-- The packets of FoE in src/transport/linux_raw_socket_transport_foe_eoe.cpp as sequences of steps.
use openethercat.Base.{
  ℕ, zero, suc, ◌+◌, ◌%◌, min, refl, Bool, true, false, not, ◌||◌, List, [], ◌++◌, Option, some,
  String, ltb, leb, ◌==◌, length, take, drop, if_both, option_both,
}
use openethercat.Base.Bytes.{read_le16, read_le32}
use openethercat.Mailbox.{EscMailboxFrame}
use openethercat.Raw.{RawTransport, System, Outcome}
use openethercat.Raw.Datagram.{to_auto_increment_address}
use openethercat.Raw.Files.{
  mailbox_type_foe, foe_packet, foe_frame, fail_read, fail_write, send, wait, take_packet,
  read_packets, write_packets, write_accepted,
}
use openethercat.Raw.Frames.{Windows, Expected}
use openethercat.Raw.Steps.{Steps, none_yet, steps, counts, Steps-trans, outcome_both}
use openethercat.Raw.Steps.Datagrams.{sleep_ms-Steps}
use openethercat.Raw.Steps.Frames.{mailbox_write_frame-StepsTo, mailbox_read_frame_expected-StepsTo}
use openethercat.Raw.Steps.Transactions.{MayStepTo, unfinished, finished, then_may}
use openethercat.Transport.{FoeResponse}

module _ {N : Type 0} (sys : System N) (over : ℕ → ℕ) where
  -- A failure that ends a read or a write, after some steps.
  pub read_fails :
      (bytes : List ℕ) (why : String) {t u : RawTransport N}
      → Steps sys t u
      → MayStepTo sys t (some (fail_read bytes why u))
  unfolding fail_read
  read_fails bytes why h =
      finished (steps h (counts _ _ (refl, refl, refl, refl, refl, refl, refl, refl)))

  pub write_fails :
      (why : String) {t u : RawTransport N}
      → Steps sys t u
      → MayStepTo sys t (some (fail_write why u))
  unfolding fail_write
  write_fails why h =
      finished (steps h (counts _ _ (refl, refl, refl, refl, refl, refl, refl, refl)))

  module _ (position : ℕ) (w : Windows) where
    pub send-Steps :
        (payload : List ℕ) (t : RawTransport N) → Steps sys t (send sys over position w payload t).0
    unfolding send
    send-Steps payload t =
        (mailbox_write_frame-StepsTo sys over (to_auto_increment_address position) w
          mailbox_type_foe payload t).stepped

    pub wait-Steps :
        (e : Expected) (t : RawTransport N) → Steps sys t (wait sys over position w e t).0
    unfolding wait
    wait-Steps e t =
        (mailbox_read_frame_expected-StepsTo sys over (to_auto_increment_address position) position
          w e t).stepped

    take_packet-MayStepTo :
        (rest : ℕ
          → ℕ
          → List ℕ
          → RawTransport N
          → Option (RawTransport N × (Bool × (FoeResponse × String))))
        → ((counter packet : ℕ) (bytes : List ℕ) (u : RawTransport N)
            → MayStepTo sys u (rest counter packet bytes u))
        → (max_data packet : ℕ) (bytes : List ℕ) (text : String) (payload : List ℕ)
          (t : RawTransport N)
        → MayStepTo sys t
            (take_packet sys over position w rest max_data packet bytes text payload t)
    unfolding take_packet
    take_packet-MayStepTo rest goes_on max_data packet bytes text payload t =
        let s = send sys over position w (foe_packet 4 packet []) t in
        let sent = send-Steps (foe_packet 4 packet []) t in
        let chunk = drop 6 payload in
        if_both (MayStepTo sys t) (not (read_le32 over payload 2 == packet))
          (read_fails bytes _ none_yet)
          (option_both (MayStepTo sys t) s.1.1
            (if_both (MayStepTo sys t) (ltb (length chunk) max_data) (finished sent)
              (then_may sys sent (goes_on s.1.0 ((packet + 1) % 4294967296) (bytes ++ chunk) s.0)))
            (λ why. read_fails (bytes ++ chunk) _ sent))

    pub read_packets-MayStepTo :
        (fuel max_data : ℕ) (text : String) (counter packet : ℕ) (bytes : List ℕ)
        (t : RawTransport N)
        → MayStepTo sys t
            (read_packets sys over position w fuel max_data text counter packet bytes t)
    unfolding read_packets
    read_packets-MayStepTo zero max_data text counter packet bytes t = unfinished
    read_packets-MayStepTo (suc fuel) max_data text counter packet bytes t =
        let g = wait sys over position w (foe_frame counter true) t in
        let got = wait-Steps (foe_frame counter true) t in
        let goes_on = read_packets-MayStepTo fuel max_data text in
        outcome_both (MayStepTo sys t) g.1
          (λ frame.
            let op = read_le16 over frame.payload 0 in
            let long = leb 6 (length frame.payload) in
            if_both (MayStepTo sys t) (ltb (length frame.payload) 2) (read_fails bytes _ got) (
              if_both (MayStepTo sys t) (op == 5) (read_fails bytes _ got) (
                if_both (MayStepTo sys t) (op == 6)
                  (then_may sys (Steps-trans sys got (sleep_ms-Steps sys 1 g.0))
                    (goes_on counter packet bytes _))
                  (if_both (MayStepTo sys t) (not (op == 3) || not long) (read_fails bytes _ got) (
                    then_may sys got (
                      take_packet-MayStepTo (read_packets sys over position w fuel max_data text)
                        goes_on max_data packet bytes text frame.payload g.0))))))
          (λ why. read_fails bytes why got)

    write_packets-MayStepTo :
        (fuel max_data : ℕ) (text : String) (packet : ℕ) (bytes : List ℕ) (t : RawTransport N)
        → MayStepTo sys t (write_packets sys over position w fuel max_data text packet bytes t)
    unfolding write_packets
    write_packets-MayStepTo zero max_data text packet bytes t = unfinished
    write_packets-MayStepTo (suc fuel) max_data text packet bytes t =
        let chunk = take (min max_data (length bytes)) bytes in
        let s = send sys over position w (foe_packet 3 packet chunk) t in
        let sent = send-Steps (foe_packet 3 packet chunk) t in
        let g = wait sys over position w (foe_frame s.1.0 false) s.0 in
        let got = Steps-trans sys sent (wait-Steps (foe_frame s.1.0 false) s.0) in
        let left = drop (length chunk) bytes in
        option_both (MayStepTo sys t) s.1.1
          (outcome_both (MayStepTo sys t) g.1
            (λ frame.
              let op = read_le16 over frame.payload 0 in
              if_both (MayStepTo sys t) (ltb (length frame.payload) 2) (write_fails _ got) (
                if_both (MayStepTo sys t) (op == 5) (write_fails _ got) (
                  if_both (MayStepTo sys t) (not (op == 4) || ltb (length frame.payload) 6)
                    (write_fails _ got)
                    (if_both (MayStepTo sys t) (not (read_le32 over frame.payload 2 == packet))
                      (write_fails _ got)
                      (if_both (MayStepTo sys t)
                        (ltb (length chunk) max_data || leb (length left) 0) (finished got)
                        (then_may sys got (
                          write_packets-MayStepTo fuel max_data text ((packet + 1) % 4294967296)
                            left g.0)))))))
            (λ why. write_fails why got))
          (λ why. write_fails _ sent)

    pub write_accepted-MayStepTo :
        (fuel max_data : ℕ) (bytes : List ℕ) (text : String)
        (r : RawTransport N × Outcome EscMailboxFrame)
        → MayStepTo sys r.0 (write_accepted sys over position w fuel max_data bytes text r)
    unfolding write_accepted
    write_accepted-MayStepTo fuel max_data bytes text (t, outcome) =
        outcome_both (MayStepTo sys t) outcome
          (λ frame.
            let op = read_le16 over frame.payload 0 in
            if_both (MayStepTo sys t) (ltb (length frame.payload) 2) (write_fails _ none_yet) (
              if_both (MayStepTo sys t) (op == 5) (write_fails _ none_yet) (
                if_both (MayStepTo sys t) (not (op == 4)) (write_fails _ none_yet)
                  (write_packets-MayStepTo fuel max_data text 1 bytes t))))
          (λ why. write_fails why none_yet)
