-- ===== src/Config.antt =====
-- The network configuration of include/openethercat/config/eni_esi_models.hpp, and
-- src/config/config_validator.cpp with include/openethercat/config/config_validator.hpp.
pub mod Validity
mod Runs
use openethercat.Base.{
  ℕ, Bool, true, false, ◌&&◌, not, List, [], ◌∷◌, ◌++◌, Option, none, some, String, ◌<>◌,
  if◌then◌else◌, leb, ◌==◌, is_empty,
}
use openethercat.Base.Maps.{find, string_key}
use openethercat.Base.Text.{to_string}

pub data SignalDirection : Type 0 where
  input output : SignalDirection

pub record SlaveIdentity : Type 0 where
  pub name : String
  pub alias : ℕ
  pub position : ℕ
  pub vendor_id : ℕ
  pub product_code : ℕ

pub record SignalBinding : Type 0 where
  pub logical_name : String
  pub direction : SignalDirection
  pub slave_name : String
  pub byte_offset : ℕ
  pub bit_offset : ℕ

pub record NetworkConfiguration : Type 0 where
  pub slaves : List SlaveIdentity
  pub signals : List SignalBinding
  pub input_bytes : ℕ
  pub output_bytes : ℕ

pub data Severity : Type 0 where
  warning error : Severity

pub record ValidationIssue : Type 0 where
  pub severity : Severity
  pub message : String

abbrev issue : String → List ValidationIssue
issue message = record { severity = error; message = message } ∷ []

abbrev issue_if : Bool → String → List ValidationIssue
issue_if true message = issue message
issue_if false message = []

abbrev pub image_bytes : NetworkConfiguration → SignalDirection → ℕ
image_bytes c input = c.input_bytes
image_bytes c output = c.output_bytes

-- The names that the loop has put into its map.
unfoldable pub has_name : String → List (String × ℕ) → Bool
unfolding find
has_name name seen = elim (find name seen) [ none ↦ false | some n ↦ true ]

signal_issues : NetworkConfiguration → SignalBinding → Bool → List ValidationIssue
signal_issues c s duplicate =
    issue_if duplicate ("Duplicate logical signal name: " <> s.logical_name)
    ++ issue_if (is_empty s.slave_name) ("Signal '" <> s.logical_name <> "' missing slaveName")
    ++ issue_if (leb 8 s.bit_offset) ("Signal '" <> s.logical_name <> "' has bitOffset >= 8")
    ++ issue_if (leb (image_bytes c s.direction) s.byte_offset) (
        "Signal '"
        <> s.logical_name
        <> "' byteOffset "
        <> to_string s.byte_offset
        <> " outside process image size "
        <> to_string (image_bytes c s.direction))

-- The loop over the signals; a name that is there already is not inserted again.
validate_signals :
    NetworkConfiguration → List SignalBinding → List (String × ℕ) → List ValidationIssue
unfolding signal_issues has_name
validate_signals c [] seen = []
validate_signals c (s ∷ rest) seen = elim (is_empty s.logical_name) [
  | true ↦ issue "Signal logicalName cannot be empty" ++ validate_signals c rest seen
  | false ↦
      signal_issues c s (has_name s.logical_name seen)
      ++ validate_signals c rest
          (if has_name s.logical_name seen then seen else seen ++ ((s.logical_name, 1) ∷ []))
]

abbrev no_signals : List SignalBinding → Bool
no_signals [] = true
no_signals (s ∷ rest) = false

unfoldable pub validate : NetworkConfiguration → List ValidationIssue
unfolding validate_signals
validate c =
    issue_if (c.input_bytes == 0 && c.output_bytes == 0)
      "Process image cannot have both inputBytes and outputBytes equal to zero"
    ++ validate_signals c c.signals []
    ++ issue_if (no_signals c.signals) "Configuration must contain at least one logical signal"

abbrev pub is_error : Severity → Bool
is_error error = true
is_error warning = false

unfoldable pub has_errors : List ValidationIssue → Bool
has_errors [] = false
has_errors (i ∷ rest) = if is_error i.severity then true else has_errors rest
