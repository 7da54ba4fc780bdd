-- ===== src/Master/Serving.antt =====
-- A configuration that is valid is accepted, and every signal of it is then served.
use mathlib.Core.Path.{subst}
use mathlib.Core.List.{append-nil, append_assoc}
use text.Mathlib.TextEquality.{eq_iff}
use openethercat.Base.{
  ℕ, ◌≡◌, refl, sym, ap, ◌∙◌, ◌≢◌, ◌↔◌, inl, inr, Bool, true, false, List, [], ◌∷◌, ◌++◌, map,
  Option, none, some, String, ◌<>◌, All, Bool-cases, if_cases, if◌then◌else◌, ◌&&◌, ◌==◌, arith,
  length-replicate,
}
use openethercat.Base.Bits.{test_bit}
use openethercat.Base.Checked.{Checked, returns, throws}
use openethercat.Base.Maps.{find, string_key}
use openethercat.Base.Members.{Elem}
use openethercat.Config.{NetworkConfiguration, SignalBinding, input, output, validate, has_errors}
use openethercat.Config.Validity.{IsFresh, AreDistinct, IsValid, SignalIsValid, validate_iff}
use openethercat.Image.{zeroed_image, read_output_bit}
use openethercat.Mapper.{IoMapper, empty_mapper, bind_signal}
use openethercat.Master.{Master}
use openethercat.Master.Startup.{reset, bind_signals, configure}
use openethercat.Master.Cycle.{set_output_by_name, get_input_by_name, output_result}
use openethercat.Mapper.Served.{
  replicate-IsByte, nth-replicate, test_bit-zero, set_served, get_served,
}

abbrev entry : SignalBinding → String × SignalBinding
entry s = (s.logical_name, s)

find-append :
    (k : String) (t : List (String × SignalBinding)) (s : SignalBinding)
    → find k t ≡ none
    → s.logical_name ≢ k
    → find k (t ++ (entry s ∷ [])) ≡ none
unfolding find
find-append k [] s e d = ground (arith, eq_iff s.logical_name k)
find-append k ((j, r) ∷ t) s e d = ground (arith, find-append k t s, eq_iff j k)

abbrev AreFree : List (String × SignalBinding) → List SignalBinding → Type 0
AreFree t = All (λ s. find s.logical_name t ≡ none)

append-AreFree :
    (t : List (String × SignalBinding)) (s : SignalBinding) (rest : List SignalBinding)
    → AreFree t rest
    → IsFresh s.logical_name rest
    → AreFree (t ++ (entry s ∷ [])) rest
append-AreFree t s [] free fresh = tt
append-AreFree t s (r ∷ rest) free fresh = (
  find-append r.logical_name t s free.0 (λ e. fresh.0 (sym e)),
  append-AreFree t s rest free.1 fresh.1,
)

bind_free :
    (m : IoMapper) (s : SignalBinding)
    → find s.logical_name m.bindings ≡ none
    → bind_signal m s ≡ (record m { bindings = m.bindings ++ (entry s ∷ []) }, true)
unfolding bind_signal
bind_free m s e = rw (e, bind_signal) refl

not_fresh :
    (name : String) (s : SignalBinding) (rest : List SignalBinding)
    → IsFresh name rest
    → Elem s rest
    → name ≢ s.logical_name
not_fresh name s [] fresh e = absurd e
not_fresh name s (r ∷ rest) fresh (inl same) =
    λ e. fresh.0 (ap SignalBinding.logical_name same ∙ sym e)
not_fresh name s (r ∷ rest) fresh (inr later) = not_fresh name s rest fresh.1 later

find-entries :
    (s : SignalBinding) (signals : List SignalBinding)
    → AreDistinct signals
    → Elem s signals
    → find s.logical_name (map entry signals) ≡ some s
unfolding find
find-entries s [] d e = absurd e
find-entries s (r ∷ rest) d (inl same) = ground (
  arith,
  eq_iff r.logical_name s.logical_name,
  ap SignalBinding.logical_name same,
  ap (λ (x : SignalBinding). some x) same,
)
find-entries s (r ∷ rest) d (inr later) = ground (
  arith,
  eq_iff r.logical_name s.logical_name,
  not_fresh r.logical_name s rest d.0 later,
  find-entries s rest d.1 later,
)

-- No signal is bound after the reset.
all_free : (signals : List SignalBinding) → AreFree [] signals
unfolding find
all_free [] = tt
all_free (s ∷ rest) = (refl, all_free rest)

valid_signal :
    (c : NetworkConfiguration) (s : SignalBinding) (signals : List SignalBinding)
    → All (SignalIsValid c) signals
    → Elem s signals
    → SignalIsValid c s
valid_signal c s [] a e = absurd e
valid_signal c s (r ∷ rest) a (inl same) = subst (SignalIsValid c) same a.0
valid_signal c s (r ∷ rest) a (inr later) = valid_signal c s rest a.1 later

abbrev value_of : Checked (Option Bool) → Option Bool
value_of (returns value) = value
value_of (throws message) = none

module _ {T : Type 0} where
  abbrev bound : List SignalBinding → Master T → Master T
  bound signals m = record m {
    mapper = record (m.mapper) { bindings = m.mapper.bindings ++ map entry signals };
    configured = true;
  }

  bind_next :
      (s : SignalBinding) (rest : List SignalBinding) (m : Master T)
      → find s.logical_name m.mapper.bindings ≡ none
      → bind_signals (s ∷ rest) m
        ≡ bind_signals rest (record m {
          mapper = record (m.mapper) { bindings = m.mapper.bindings ++ (entry s ∷ []) };
        })
  unfolding bind_signals
  bind_next s rest m e =
      ap
        (λ (r : IoMapper × Bool). elim r.1 as (λ _. Master T × Bool) [
          | true ↦ bind_signals rest (record m { mapper = r.0 })
          | false ↦ (
            record m {
              mapper = r.0;
              error = "Duplicate logical signal name: " <> s.logical_name;
              configured = false;
            },
            false,
          )
        ])
        (bind_free m.mapper s e)

  bind_all :
      (signals : List SignalBinding) (m : Master T)
      → AreDistinct signals
      → AreFree m.mapper.bindings signals
      → bind_signals signals m ≡ (bound signals m, true)
  unfolding bind_signals
  bind_all [] m d free =
      ap
        (λ (t : List (String × SignalBinding)).
          (record m { mapper = record (m.mapper) { bindings = t }; configured = true }, true))
        (sym (append-nil m.mapper.bindings))
  bind_all (s ∷ rest) m d free =
      bind_next s rest m free.0
      ∙ (bind_all rest
            (record m {
              mapper = record (m.mapper) { bindings = m.mapper.bindings ++ (entry s ∷ []) };
            })
            d.1 (append-AreFree m.mapper.bindings s rest free.1 d.0)
          ∙ ap
              (λ (t : List (String × SignalBinding)).
                (record m { mapper = record (m.mapper) { bindings = t }; configured = true }, true))
              (append_assoc m.mapper.bindings (entry s ∷ []) (map entry rest)))

  configured_as :
      (c : NetworkConfiguration) (m : Master T)
      → IsValid c
      → configure c m ≡ (bound c.signals (reset c m), true)
  unfolding configure
  configured_as c m v =
      if_cases (λ (r : Master T × Bool). r ≡ (bound c.signals (reset c m), true))
        (has_errors (validate c)) (λ bad. absurd (cc (bad, (validate_iff c).1 v)))
        (λ good.
          bind_all c.signals (reset c m) v.distinct
            (unfold reset empty_mapper in all_free c.signals))

  refused :
      (c : NetworkConfiguration) (m : Master T)
      → has_errors (validate c) ≡ true
      → (configure c m).1 ≡ false
  unfolding configure
  refused c m bad =
      if_cases (λ (r : Master T × Bool). r.1 ≡ false) (has_errors (validate c)) (λ _. refl)
        (λ good. absurd (cc (bad, good)))

  -- What a successful setting of a signal does to the outputs.
  pub record IsStored (s : SignalBinding) (v : Bool) (before : Master T) (r : Master T × Bool)
      : Type 0 where
    pub accepted : r.1 ≡ true
    pub stored :
        (o i : ℕ)
        → read_output_bit r.0.image o i ≡ (
            if s.byte_offset == o && s.bit_offset == i
            then returns v
            else read_output_bit before.image o i)

  sets :
      (c : NetworkConfiguration) (m : Master T) (s : SignalBinding) (value : Bool)
      → IsValid c
      → Elem s c.signals
      → s.direction ≡ output
      → IsStored s value
          (configure c m).0
          (set_output_by_name s.logical_name value (configure c m).0)
  unfolding set_output_by_name reset empty_mapper zeroed_image
  sets c m s value v e d =
      let after = bound c.signals (reset c m) in
      let fits = valid_signal c s c.signals v.signals_valid e in
      let (image, written, bits) =
        set_served after.mapper after.image s value (find-entries s c.signals v.distinct e) d
          fits.bit_fits (rw (length-replicate {A = ℕ} c.output_bytes 0) (rw d at fits.byte_fits))
          (replicate-IsByte c.output_bytes) in
      rw (configured_as c m v) (
        subst (λ o. IsStored s value after (output_result s.logical_name after o)) (sym written)
          (record { accepted = refl; stored = bits }))

  gets :
      (c : NetworkConfiguration) (m : Master T) (s : SignalBinding)
      → IsValid c
      → Elem s c.signals
      → s.direction ≡ input
      → get_input_by_name s.logical_name (configure c m).0 ≡ some false
  unfolding get_input_by_name reset empty_mapper zeroed_image
  gets c m s v e d =
      let after = bound c.signals (reset c m) in
      let fits = valid_signal c s c.signals v.signals_valid e in
      ap (λ (r : Master T × Bool). get_input_by_name s.logical_name r.0) (configured_as c m v)
      ∙ (ap value_of (
            get_served after.mapper after.image s (find-entries s c.signals v.distinct e) d
              fits.bit_fits
              (rw (length-replicate {A = ℕ} c.input_bytes 0) (rw d at fits.byte_fits)))
          ∙ ap (λ b. some (test_bit b s.bit_offset)) (nth-replicate c.input_bytes s.byte_offset)
          ∙ ap (λ b. some b) (test_bit-zero s.bit_offset fits.bit_fits))

  -- A configuration is accepted exactly if it is valid, and then every signal is served at once: an
  -- output can be set, to either value, which its bit then has while all other output bits are as they
  -- were, and an input reads as not set.
  pub configure-serves :
      (c : NetworkConfiguration) (m : Master T)
      → ((configure c m).1 ≡ true ↔ IsValid c)
        × (IsValid c
            → (s : SignalBinding) → Elem s c.signals
            → (s.direction ≡ output
                → (v : Bool)
                → IsStored s v
                    (configure c m).0
                    (set_output_by_name s.logical_name v (configure c m).0))
              × (s.direction ≡ input
                  → get_input_by_name s.logical_name (configure c m).0 ≡ some false))
  configure-serves c m = (
    (
      λ h. elim (Bool-cases (has_errors (validate c))) [
        | inl bad ↦ absurd (cc (h, refused c m bad))
        | inr good ↦ (validate_iff c).0 good
      ],
      λ v. ap (λ (r : Master T × Bool). r.1) (configured_as c m v),
    ),
    λ v s e. (λ d value. sets c m s value v e d, λ d. gets c m s v e d),
  )
