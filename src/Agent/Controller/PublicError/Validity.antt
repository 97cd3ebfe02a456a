-- ===== src/Agent/Controller/PublicError/Validity.antt =====
-- Every public error of a provider's failure is valid, and says what the effects say.
use onprest.Prelude.{
  ◌≡◌, refl, Bool, true, false, List, [], ◌∷◌, Option, none, some, String, arith, inl, inr,
  Bool-cases, Option-cases,
}
use onprest.Agent.Effects.{Status, committed, rolled_back, Effects, outcome, settled}
use onprest.Agent.Controller.PublicError.{
  ErrorValue, system_error_codes, contains, is_outcome, TextLibrary, message_ok, validate,
  execution_message, fail, ProviderError, with_reason, if_valid, unknown_error, failure_error,
  terminal_error, known_error, first_error, public_error,
}

settled-outcome :
    (no_changes : Bool) (ops : List Status) → is_outcome (settled no_changes ops) ≡ true
unfolding settled
settled-outcome no_changes [] = ground arith
settled-outcome no_changes (committed ∷ ops) = ground arith
settled-outcome no_changes (rolled_back ∷ ops) = ground arith
settled-outcome no_changes (_ ∷ ops) = refl

outcome_is_public : (e : Effects) → is_outcome (outcome e) ≡ true
unfolding outcome
outcome_is_public e = ground (arith, settled-outcome e.no_changes e.operations)

-- A public error is valid, and its outcome is that of the effects.
pub record IsPublic (text : TextLibrary) (effects : Effects) (e : ErrorValue) : Type 0 where
  pub valid : validate text e ≡ true
  pub true_outcome : e.outcome ≡ outcome effects

module _ (text : TextLibrary) (effects : Effects)
    (plain : (code : String) → message_ok text (execution_message code) ≡ true) where
  fail-IsPublic :
      (code : String)
      → contains system_error_codes code ≡ true
      → IsPublic text effects (fail effects code)
  unfolding fail validate
  fail-IsPublic code known = record {
    valid = ground (arith, known, plain code, outcome_is_public effects);
    true_outcome = refl;
  }

  failed-IsPublic : IsPublic text effects (fail effects "EXECUTION_FAILED")
  unfolding contains
  failed-IsPublic = fail-IsPublic "EXECUTION_FAILED" refl

  if_valid-IsPublic :
      (e : ErrorValue)
      → e.outcome ≡ outcome effects
      → IsPublic text effects (if_valid text effects e)
  unfolding if_valid
  if_valid-IsPublic e same = elim (Bool-cases (validate text e)) [
    | inl fine ↦ rw fine (record { valid = fine; true_outcome = same })
    | inr refused ↦ rw refused failed-IsPublic
  ]

  unknown_error-IsPublic :
      (reason : String) → IsPublic text effects (unknown_error text effects reason)
  unfolding unknown_error contains fail
  unknown_error-IsPublic reason =
      elim (Bool-cases
        (validate text (with_reason text effects (fail effects "OUTCOME_UNKNOWN") reason))) [
          | inl fine ↦ rw fine (record { valid = fine; true_outcome = refl })
          | inr refused ↦ rw refused (fail-IsPublic "OUTCOME_UNKNOWN" refl)
        ]

  failure_error-IsPublic :
      (f : Option (String × String)) → IsPublic text effects (failure_error text effects f)
  unfolding failure_error fail
  failure_error-IsPublic none = failed-IsPublic
  failure_error-IsPublic (some (code, reason)) = ground (
    arith,
    failed-IsPublic,
    if_valid-IsPublic (with_reason text effects (fail effects code) reason) refl,
  )

  terminal_error-IsPublic :
      (t : String × String) → IsPublic text effects (terminal_error text effects t)
  unfolding terminal_error
  terminal_error-IsPublic (code, message) = ground (
    arith,
    failed-IsPublic,
    if_valid-IsPublic
        (record { code = code; message = message; reason = ""; outcome = outcome effects }) refl,
  )

  known_error-IsPublic :
      (expired : Bool) (err : ProviderError)
      → ((code : String) → err.output_code ≡ some code → contains system_error_codes code ≡ true)
      → IsPublic text effects (known_error text effects expired err)
  unfolding known_error contains
  known_error-IsPublic true err outputs = fail-IsPublic "EXECUTION_TIMEOUT" refl
  known_error-IsPublic false err outputs = elim (Option-cases err.output_code) [
    | inr (code, coded) ↦ rw coded (fail-IsPublic code (outputs code coded))
    | inl uncoded ↦ elim (Option-cases err.terminal) [
      | inr (t, ended) ↦ rw (uncoded, ended) (terminal_error-IsPublic t)
      | inl open_end ↦ rw (uncoded, open_end) (failure_error-IsPublic err.failure)
    ]
  ]

  first_error-IsPublic :
      (expired : Bool) (err : ProviderError) (failure : Option (String × String))
      → ((code : String) → err.output_code ≡ some code → contains system_error_codes code ≡ true)
      → IsPublic text effects (first_error text effects expired err failure)
  unfolding first_error
  first_error-IsPublic expired err none outputs = known_error-IsPublic expired err outputs
  first_error-IsPublic expired err (some (code, reason)) outputs =
      ground (arith, unknown_error-IsPublic reason, known_error-IsPublic expired err outputs)

  -- Where the controller's messages are valid text and an output error has a system code, the
  -- public error for every error of a provider passes Validate, and its outcome is that of the
  -- effects.
  pub public_error-IsPublic :
      (expired : Bool) (err : ProviderError)
      → ((code : String) → err.output_code ≡ some code → contains system_error_codes code ≡ true)
      → IsPublic text effects (public_error text effects expired err)
  unfolding public_error
  public_error-IsPublic expired err outputs = first_error-IsPublic expired err err.failure outputs
