-- ===== src/Raw/Clocks.antt =====
-- The distributed clock registers of src/transport/linux_raw_socket_transport_state_dc.cpp: signed times in
-- eight bytes, and the counts of accesses.
use mathlib.Core.Path.{ap₂}
use openethercat.Base.{
  ◌/◌, ◌*◌, ℕ, ◌+◌, ◌%◌, ◌<◌, ◌≡◌, refl, ap, ◌∙◌, not, List, ◌++◌, String, Option, if_both, arith,
  ltb, length, replicate,
}
use openethercat.Base.Bytes.{read_le32, put_le32, byte_at}
use openethercat.Clock.{ℤ, pos, negsuc}
use openethercat.Raw.{RawTransport, System, Outcome, DcDiagnostics}
use openethercat.Raw.Datagram.{command_aprd, command_apwr, to_auto_increment_address, send_next}
use openethercat.Raw.Exchange.{is_some}
use openethercat.Raw.Registers.{
  read_le64_signed, write_le64_signed, read_dc_system_time, write_dc_system_time_offset,
  register_dc_system_time, register_dc_system_time_offset, signed64, unsigned64,
}
use openethercat.Raw.Steps.{outcome_both}

-- A time of 64 bits.
abbrev IsTime : ℤ → Type 0
IsTime (pos n) = n < 9223372036854775808
IsTime (negsuc n) = n < 9223372036854775808

read-put :
    (over : ℕ → ℕ) (low high : ℕ) (rest : List ℕ)
    → low < 4294967296
    → high < 4294967296
    → (read_le32 over (put_le32 low ++ put_le32 high ++ rest) 0 ≡ low)
      × (read_le32 over (put_le32 low ++ put_le32 high ++ rest) 4 ≡ high)
unfolding read_le32 put_le32 byte_at
read-put over low high rest hl hh = (omega arith, omega arith)

signed-unsigned : (time : ℤ) → IsTime time → signed64 (unsigned64 time) ≡ time
signed-unsigned (pos n) h = let small : n % 18446744073709551616 ≡ n = omega arith in ground arith
signed-unsigned (negsuc n) h =
    let small : n % 18446744073709551616 ≡ n = omega arith in ground arith

unsigned-bound : (time : ℤ) → unsigned64 time < 18446744073709551616
unsigned-bound (pos n) = omega arith
unsigned-bound (negsuc n) = omega arith

divided : (u : ℕ) → u % 4294967296 + u / 4294967296 * 4294967296 ≡ u
divided u = omega arith

-- A signed time of 64 bits that is written is read back, whatever stands behind it.
pub read-write_le64_signed :
    (over : ℕ → ℕ) (time : ℤ) (rest : List ℕ)
    → IsTime time
    → read_le64_signed over (write_le64_signed time ++ rest) 0 ≡ time
unfolding read_le64_signed write_le64_signed
read-write_le64_signed over time rest h =
    let u = unsigned64 time in
    let (low, high) =
      read-put over (u % 4294967296) (u / 4294967296) rest (omega arith)
        (omega (arith, unsigned-bound time)) in
    ap₂ (λ (a b : ℕ). signed64 (a + b * 4294967296)) low high
    ∙ ap signed64 (divided u)
    ∙ signed-unsigned time h

-- Every access is a success or a failure, in 64 bits, and none of a payload that is too short is left
-- out of the failures.
abbrev pub IsTallied : DcDiagnostics → Type 0
IsTallied d =
    ((d.read_success + d.read_failure) % 18446744073709551616 ≡ d.read_attempts)
    × ((d.write_success + d.write_failure) % 18446744073709551616 ≡ d.write_attempts)

module _ {N : Type 0} (sys : System N) (over : ℕ → ℕ) where
  send_next-dc :
      (command adp ado : ℕ) (payload : List ℕ) (t : RawTransport N)
      → (send_next sys over command adp ado payload t).0.dc_diagnostics ≡ t.dc_diagnostics
  unfolding send_next
  send_next-dc command adp ado payload t = refl

  read_dc-IsTallied :
      (position : ℕ) (t : RawTransport N)
      → IsTallied t.dc_diagnostics
      → IsTallied (read_dc_system_time sys over position t).0.dc_diagnostics
  unfolding read_dc_system_time
  read_dc-IsTallied position t h =
      let d = record (t.dc_diagnostics) {
        read_attempts = (t.dc_diagnostics.read_attempts + 1) % 18446744073709551616;
      } in
      let s =
        send_next sys over command_aprd (to_auto_increment_address position) register_dc_system_time
          (replicate 8 0) (record t { dc_diagnostics = d }) in
      let Good : RawTransport N × Outcome ℤ → Type 0 = λ r. IsTallied r.0.dc_diagnostics in
      if_both Good (not (is_some t.socket_fd)) (omega arith, omega arith)
        (outcome_both Good s.1
          (λ reply.
            if_both Good (ltb (length reply.payload) 8) (omega arith, omega arith)
              (omega arith, omega arith))
          (λ why. (omega arith, omega arith)))

  write_dc-IsTallied :
      (position : ℕ) (offset : ℤ) (t : RawTransport N)
      → IsTallied t.dc_diagnostics
      → IsTallied (write_dc_system_time_offset sys over position offset t).0.dc_diagnostics
  unfolding write_dc_system_time_offset
  write_dc-IsTallied position offset t h =
      let d = record (t.dc_diagnostics) {
        write_attempts = (t.dc_diagnostics.write_attempts + 1) % 18446744073709551616;
      } in
      let s =
        send_next sys over command_apwr (to_auto_increment_address position)
          register_dc_system_time_offset (write_le64_signed offset)
          (record t { dc_diagnostics = d }) in
      let Good : RawTransport N × Option String → Type 0 = λ r. IsTallied r.0.dc_diagnostics in
      if_both Good (not (is_some t.socket_fd)) (omega arith, omega arith)
        (outcome_both Good s.1 (λ reply. (omega arith, omega arith))
          (λ why. (omega arith, omega arith)))

-- Both accesses to the clock of a slave keep the counts: each attempt is counted as one success or as
-- one failure, in 64 bits.
pub dc_access-IsTallied :
    {N : Type 0} (sys : System N) (over : ℕ → ℕ) (position : ℕ) (offset : ℤ) (t : RawTransport N)
    → IsTallied t.dc_diagnostics
    → IsTallied (read_dc_system_time sys over position t).0.dc_diagnostics
      × IsTallied (write_dc_system_time_offset sys over position offset t).0.dc_diagnostics
dc_access-IsTallied sys over position offset t h =
    (read_dc-IsTallied sys over position t h, write_dc-IsTallied sys over position offset t h)
