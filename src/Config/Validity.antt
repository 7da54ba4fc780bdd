-- ===== src/Config/Validity.antt =====
-- The validator decides a description of valid configurations that does not mention its loop.
use text.Mathlib.Text.{◌==◌ as str_eq}
use text.Mathlib.TextEquality.{eq_iff}
use openethercat.Base.{
  ℕ, ◌+◌, ◌<◌, ◌≡◌, refl, ◌≢◌, ◌↔◌, sym, ◌∙◌, Bool, true, false, ◌||◌, ◌&&◌, List, [], ◌∷◌, ◌++◌,
  String, arith, is_empty, All, if◌then◌else◌, Bool-cases, inl, inr, ◌==◌,
}
use openethercat.Base.Maps.{find, string_key}
use openethercat.Config.{
  NetworkConfiguration, SignalBinding, ValidationIssue, image_bytes, issue_if, has_name, no_signals,
  signal_issues, validate_signals, validate, has_errors,
}

pub record SignalIsValid (c : NetworkConfiguration) (s : SignalBinding) : Type 0 where
  pub named : is_empty s.logical_name ≡ false
  pub placed : is_empty s.slave_name ≡ false
  pub bit_fits : s.bit_offset < 8
  pub byte_fits : s.byte_offset < image_bytes c s.direction

abbrev pub IsFresh : String → List SignalBinding → Type 0
IsFresh name = All (λ s. s.logical_name ≢ name)

-- No two signals have one name.
abbrev pub AreDistinct : List SignalBinding → Type 0
AreDistinct [] = Unit
AreDistinct (s ∷ rest) = IsFresh s.logical_name rest × AreDistinct rest

pub record IsValid (c : NetworkConfiguration) : Type 0 where
  pub has_image : c.input_bytes + c.output_bytes ≢ 0
  pub has_signals : c.signals ≢ []
  pub signals_valid : All (SignalIsValid c) c.signals
  pub distinct : AreDistinct c.signals

has_errors-append :
    (a b : List ValidationIssue) → has_errors (a ++ b) ≡ (has_errors a || has_errors b)
unfolding has_errors
has_errors-append [] b = refl
has_errors-append (i ∷ a) b = ground (arith, has_errors-append a b)

abbrev IsUnseen : List (String × ℕ) → SignalBinding → Type 0
IsUnseen seen s = has_name s.logical_name seen ≡ false

has_name-append :
    (seen : List (String × ℕ)) (name other : String)
    → has_name other (seen ++ ((name, 1) ∷ [])) ≡ (has_name other seen || str_eq name other)
unfolding has_name find
has_name-append [] name other = ground arith
has_name-append ((n, k) ∷ seen) name other = ground (arith, has_name-append seen name other)

signal_issues_iff :
    (c : NetworkConfiguration) (s : SignalBinding) (duplicate : Bool)
    → is_empty s.logical_name ≡ false
    → (has_errors (signal_issues c s duplicate) ≡ false) ↔ (SignalIsValid c s × (duplicate ≡ false))
unfolding signal_issues has_errors
signal_issues_iff c s true named = (λ h. ground arith, λ h. ground arith)
signal_issues_iff c s false named = (λ h. ground arith, λ h. ground arith)

IsUnseen-append :
    (seen : List (String × ℕ)) (name : String) (sigs : List SignalBinding)
    → All (IsUnseen (seen ++ ((name, 1) ∷ []))) sigs
      ↔ (All (IsUnseen seen) sigs × IsFresh name sigs)
IsUnseen-append seen name [] = (λ h. (tt, tt), λ h. tt)
IsUnseen-append seen name (s ∷ rest) = (
  λ h. (
    (
      ground (arith, has_name-append seen name s.logical_name, h.0),
      ((IsUnseen-append seen name rest).0 h.1).0,
    ),
    (
      λ e.
          ground
            (arith, has_name-append seen name s.logical_name, h.0, eq_iff name s.logical_name, e),
      ((IsUnseen-append seen name rest).0 h.1).1,
    ),
  ),
  λ h. (
    ground
        (arith, has_name-append seen name s.logical_name, h.0.0, h.1.0, eq_iff name s.logical_name),
    (IsUnseen-append seen name rest).1 (h.0.1, h.1.1),
  ),
)

or_false : (a b : Bool) → (a || b) ≡ false → (a ≡ false) × (b ≡ false)
or_false a b h = ground arith

named_step :
    (c : NetworkConfiguration) (s : SignalBinding) (rest : List SignalBinding)
    (seen : List (String × ℕ))
    → is_empty s.logical_name ≡ false
    → has_errors (validate_signals c (s ∷ rest) seen) ≡ (
        has_errors (signal_issues c s (has_name s.logical_name seen))
        || has_errors (
            validate_signals c rest
              (if has_name s.logical_name seen then seen else seen ++ ((s.logical_name, 1) ∷ []))))
unfolding validate_signals
named_step c s rest seen named = rw (named, validate_signals) (has_errors-append _ _)

unnamed_step :
    (c : NetworkConfiguration) (s : SignalBinding) (rest : List SignalBinding)
    (seen : List (String × ℕ))
    → is_empty s.logical_name ≡ true
    → has_errors (validate_signals c (s ∷ rest) seen) ≡ true
unfolding validate_signals has_errors
unnamed_step c s rest seen unnamed = rw (unnamed, validate_signals)

validate_signals_sound :
    (c : NetworkConfiguration) (sigs : List SignalBinding) (seen : List (String × ℕ))
    → has_errors (validate_signals c sigs seen) ≡ false
    → All (SignalIsValid c) sigs × AreDistinct sigs × All (IsUnseen seen) sigs
validate_signals_sound c [] seen h = (tt, tt, tt)
validate_signals_sound c (s ∷ rest) seen h = elim (Bool-cases (is_empty s.logical_name)) [
  | inl unnamed ↦ absurd (cc (unnamed_step c s rest seen unnamed))
  | inr named ↦
      let (here, later) = or_false _ _ (sym (named_step c s rest seen named) ∙ h) in
      let (valid, fresh) = (signal_issues_iff c s (has_name s.logical_name seen) named).0 here in
      let (vs, ds, us) =
        validate_signals_sound c rest (seen ++ ((s.logical_name, 1) ∷ [])) (rw fresh at later) in
      let (us', names) = (IsUnseen-append seen s.logical_name rest).0 us in
      ((valid, vs), (names, ds), (fresh, us'))
]

validate_signals_complete :
    (c : NetworkConfiguration) (sigs : List SignalBinding) (seen : List (String × ℕ))
    → All (SignalIsValid c) sigs
    → AreDistinct sigs
    → All (IsUnseen seen) sigs
    → has_errors (validate_signals c sigs seen) ≡ false
unfolding validate_signals has_errors
validate_signals_complete c [] seen v d u = refl
validate_signals_complete c (s ∷ rest) seen v d u =
    rw
      (
        named_step c s rest seen v.0.named,
        u.0,
        (signal_issues_iff c s false v.0.named).1 (v.0, refl),
      )
      (validate_signals_complete c rest (seen ++ ((s.logical_name, 1) ∷ [])) v.1 d.1
        ((IsUnseen-append seen s.logical_name rest).1 (u.1, d.0)))

IsUnseen-nil : (sigs : List SignalBinding) → All (IsUnseen []) sigs
unfolding has_name
IsUnseen-nil [] = tt
IsUnseen-nil (s ∷ rest) = (refl, IsUnseen-nil rest)

has_errors-issue_if : (b : Bool) (message : String) → has_errors (issue_if b message) ≡ b
unfolding has_errors
has_errors-issue_if true message = refl
has_errors-issue_if false message = refl

validate_parts :
    (c : NetworkConfiguration)
    → has_errors (validate c) ≡ (
        (c.input_bytes == 0 && c.output_bytes == 0)
        || has_errors (validate_signals c c.signals [])
        || no_signals c.signals)
unfolding validate
validate_parts c = simp (has_errors-append, has_errors-issue_if)

no_signals_iff : (sigs : List SignalBinding) → (no_signals sigs ≡ false) ↔ (sigs ≢ [])
no_signals_iff [] = (λ h. cc, λ h. absurd (h refl))
no_signals_iff (s ∷ rest) = (λ h e. cc, λ h. refl)

-- The validator reports no error exactly if the image has a byte, there is a signal, every signal
-- has a name, a slave, a bit below 8 and a byte inside the image of its direction, and no two
-- signals share a name.
pub validate_iff : (c : NetworkConfiguration) → (has_errors (validate c) ≡ false) ↔ IsValid c
validate_iff c = (sound, complete)
  where
    sound : has_errors (validate c) ≡ false → IsValid c
    sound h =
        let (more, some_signal) =
          or_false
            ((c.input_bytes == 0 && c.output_bytes == 0)
              || has_errors (validate_signals c c.signals []))
            (no_signals c.signals) (sym (validate_parts c) ∙ h) in
        let (image, loop) = or_false (c.input_bytes == 0 && c.output_bytes == 0) _ more in
        let (valid, distinct, _) = validate_signals_sound c c.signals [] loop in
        record {
          has_image = ground (arith, image);
          has_signals = (no_signals_iff c.signals).0 some_signal;
          signals_valid = valid;
          distinct = distinct;
        }

    complete : IsValid c → has_errors (validate c) ≡ false
    complete v =
        rw
          (
            validate_parts c,
            (no_signals_iff c.signals).1 v.has_signals,
            validate_signals_complete c c.signals [] v.signals_valid v.distinct
                (IsUnseen-nil c.signals),
          )
          (ground (arith, v.has_image))
