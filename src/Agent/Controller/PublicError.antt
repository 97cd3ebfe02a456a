-- ===== src/Agent/Controller/PublicError.antt =====
-- The public errors of an execution: ErrorValue and Validate of internal/contract/envelope.go, with the
-- codes of internal/contract/public_schema.go, and the errors that `Execute` of
-- internal/agent/controller.go makes of what a provider returns.
pub mod Validity
use text.Mathlib.Text.{◌==◌ as str_eq}
use onprest.Prelude.{
  ℕ, Bool, true, false, not, ◌&&◌, ◌||◌, List, [], ◌∷◌, Option, none, some, String, Bytes, length,
  leb, ltb, if◌then◌else◌,
}
use onprest.Agent.Effects.{
  Status, not_started, no_change, unknown, committed, rolled_back, uncertain, Effects, outcome,
}

pub record ErrorValue : Type 0 where
  pub code : String
  pub message : String
  pub reason : String
  pub outcome : Status

abbrev pub system_error_codes : List String
system_error_codes =
    "INVALID_REQUEST" ∷ "VALIDATION_FAILED" ∷ "AUTH_FAILED" ∷ "CAPABILITY_DENIED"
    ∷ "PERMISSION_DENIED" ∷ "NOT_FOUND" ∷ "SOURCE_CHANGED" ∷ "CONFLICT" ∷ "LIMIT_EXCEEDED"
    ∷ "RATE_LIMITED" ∷ "BUSY" ∷ "AGENT_OFFLINE" ∷ "DEPENDENCY_UNAVAILABLE" ∷ "EXECUTION_TIMEOUT"
    ∷ "EXECUTION_FAILED" ∷ "OUTPUT_INVALID" ∷ "OUTCOME_UNKNOWN" ∷ "INTERNAL_ERROR" ∷ []

unfoldable pub contains : List String → String → Bool
contains [] code = false
contains (c ∷ cs) code = str_eq c code || contains cs code

-- The list `outcomes`, which has every status but that of an uncertain operation.
abbrev pub is_outcome : Status → Bool
is_outcome uncertain = false
is_outcome _ = true

unfoldable pub any_rune : (ℕ → Bool) → List ℕ → Bool
any_rune test [] = false
any_rune test (r ∷ rs) = test r || any_rune test rs

-- What the libraries say of text: the bytes and the runes of a string, utf8.ValidString, unicode.IsControl,
-- strings.HasPrefix of `APP_`, and the two regular expressions.
pub record TextLibrary : Type 0 where
  pub bytes_of : String → Bytes
  pub runes_of : String → List ℕ
  pub valid_string : String → Bool
  pub is_control : ℕ → Bool
  pub has_app_prefix : String → Bool
  pub app_code : String → Bool
  pub reason_code : String → Bool

unfoldable pub message_ok : TextLibrary → String → Bool
message_ok text m =
    text.valid_string m
    && (leb 1 (length (text.bytes_of m))
        && (leb (length (text.bytes_of m)) 1024
            && not (any_rune text.is_control (text.runes_of m))))

-- `Validate`, as whether it gives no error.
unfoldable pub validate : TextLibrary → ErrorValue → Bool
validate text e =
    (contains system_error_codes e.code || text.app_code e.code)
    && (message_ok text e.message
        && ((str_eq e.reason "" || text.reason_code e.reason)
            && (is_outcome e.outcome && not (text.app_code e.code && not (str_eq e.reason "")))))

-- `executionMessage`.
unfoldable pub execution_message : String → String
execution_message code =
    if str_eq code "INVALID_REQUEST"
    then "request is invalid"
    else if str_eq code "VALIDATION_FAILED"
    then "input does not satisfy the configured contract"
    else if str_eq code "NOT_FOUND"
    then "capability is not available"
    else if str_eq code "CONFLICT"
    then "operation conflicts with current state"
    else if str_eq code "RATE_LIMITED"
    then "capability rate limit exceeded"
    else if str_eq code "BUSY"
    then "execution capacity is busy"
    else if str_eq code "EXECUTION_TIMEOUT"
    then "execution exceeded the configured deadline"
    else if str_eq code "OUTPUT_INVALID"
    then "output does not satisfy the configured contract"
    else if str_eq code "LIMIT_EXCEEDED"
    then "output exceeds the configured limit"
    else "capability execution failed"

-- `fail` of `Execute`.
unfoldable pub fail : Effects → String → ErrorValue
fail effects code = record {
  code = code;
  message = execution_message code;
  reason = "";
  outcome = outcome effects;
}

-- What errors.As finds in a provider's error: a failure's code and reason, an output error's code, and a
-- terminal's code and message.
pub record ProviderError : Type 0 where
  pub failure : Option (String × String)
  pub output_code : Option String
  pub terminal : Option (String × String)

module _ (text : TextLibrary) (effects : Effects) where
  abbrev pub with_reason : ErrorValue → String → ErrorValue
  with_reason e reason = record e { reason = reason }

  unfoldable pub if_valid : ErrorValue → ErrorValue
  if_valid candidate =
      if validate text candidate then candidate else fail effects "EXECUTION_FAILED"

  unfoldable pub unknown_error : String → ErrorValue
  unknown_error reason =
      let public = with_reason (fail effects "OUTCOME_UNKNOWN") reason in
      if validate text public then public else with_reason public ""

  unfoldable pub failure_error : Option (String × String) → ErrorValue
  failure_error none = fail effects "EXECUTION_FAILED"
  failure_error (some (code, reason)) =
      if not (text.has_app_prefix code)
      then if_valid (with_reason (fail effects code) reason)
      else fail effects "EXECUTION_FAILED"

  unfoldable pub terminal_error : String × String → ErrorValue
  terminal_error (code, message) =
      if text.has_app_prefix code
      then if_valid
          (record { code = code; message = message; reason = ""; outcome = outcome effects })
      else fail effects "EXECUTION_FAILED"

  -- The cases after that of a failure whose outcome is unknown.
  unfoldable pub known_error : Bool → ProviderError → ErrorValue
  known_error expired err =
      if expired then fail effects "EXECUTION_TIMEOUT" else elim err.output_code [
        | some code ↦ fail effects code
        | none ↦ elim err.terminal [ some t ↦ terminal_error t | none ↦ failure_error err.failure ]
      ]

  unfoldable pub first_error : Bool → ProviderError → Option (String × String) → ErrorValue
  first_error expired err none = known_error expired err
  first_error expired err (some (code, reason)) =
      if str_eq code "OUTCOME_UNKNOWN" then unknown_error reason else known_error expired err

  -- The public error of `Execute` for a provider's error; `expired` is the context's.
  unfoldable pub public_error : Bool → ProviderError → ErrorValue
  public_error expired err = first_error expired err err.failure
