-- ===== src/Samples/Control.antt =====
-- The controller and its public errors on concrete inputs.
use text.Mathlib.Text.{◌==◌ as str_eq}
use onprest.Prelude.{
  ◌⊎◌, ◌≤◌, ◌≡◌, refl, true, false, [], ◌∷◌, none, some, String, length, ltb, none≢some,
}
use onprest.Prelude.Dict.{lookup}
use onprest.Agent.Effects.{Effects, committed, outcome, settled, all_are}
use onprest.Agent.Prepared.{acquire, has_name, empty_prepared, close_start, close_providers}
use onprest.Agent.Controller.{
  Call, Controller, new_controller, enter, leased, with_lease, call_refusal, timeout_ok, take_rate,
  occupy,
}
use onprest.Agent.Controller.Running.{Step, Reachable, running_keeps_open}
use onprest.Agent.Controller.PublicError.{
  TextLibrary, ProviderError, message_ok, any_rune, execution_message, public_error, first_error,
  unknown_error, fail, validate, contains,
}
use onprest.Agent.Controller.PublicError.Validity.{IsPublic, public_error-IsPublic}

abbrev query : Call
query = record {
  valid_id = true;
  capability = "a";
  definition_hash = "";
  admitted = false;
  timeout = some 5;
  takes_files = false;
  valid_input = true;
  own_files = true;
  has_files = false;
  input_starts = true;
  expired_at_start = false;
  expired_on_input = false;
  expired_when_admitted = false;
}

abbrev idle : Controller
idle = new_controller 1 [] (empty_prepared ("a" ∷ []))

abbrev one_runs : Controller
one_runs = (enter 3 query "hash" idle).0

-- The second call finds no place.
abbrev two_came : Controller
two_came = (enter 4 query "hash" one_runs).0

abbrev closing : Controller
closing = record two_came { prepared = close_start two_came.prepared }

abbrev tried_to_close : Controller
tried_to_close = record closing { prepared = close_providers closing.prepared }

one_is_active : tried_to_close.active ≡ 1
unfolding enter acquire has_name leased with_lease call_refusal timeout_ok take_rate lookup occupy
one_is_active = refl

tried_to_close_reachable : Reachable 1 [] ("a" ∷ []) tried_to_close
tried_to_close_reachable =
    Reachable.after
      (Reachable.after
        (Reachable.after (Reachable.after Reachable.begun (Step.entered 3 query "hash"))
          (Step.entered 4 query "hash"))
        Step.closing_began)
      Step.providers_closed

running_keeps_open_example :
    (tried_to_close.active ≡ length tried_to_close.running)
    × ((tried_to_close.active ≤ tried_to_close.max)
        × ((tried_to_close.active ≡ 0) ⊎ (tried_to_close.prepared.closed ≡ [])))
running_keeps_open_example =
    running_keeps_open 1 [] ("a" ∷ []) tried_to_close tried_to_close_reachable

abbrev pub plain_text : TextLibrary
plain_text = record {
  bytes_of = λ s. 65 ∷ [];
  runes_of = λ s. 65 ∷ [];
  valid_string = λ s. true;
  is_control = λ r. ltb r 32;
  has_app_prefix = λ s. str_eq s "APP_X";
  app_code = λ s. str_eq s "APP_X";
  reason_code = λ s. true;
}

messages_are_plain : (code : String) → message_ok plain_text (execution_message code) ≡ true
unfolding message_ok any_rune
messages_are_plain code = refl

abbrev one_committed : Effects
one_committed = record { started = true; no_changes = false; operations = committed ∷ [] }

abbrev lost_commit : ProviderError
lost_commit = record {
  failure = some ("OUTCOME_UNKNOWN", "COMMIT_LOST");
  output_code = none;
  terminal = none;
}

public_error-IsPublic_example :
    IsPublic plain_text one_committed (public_error plain_text one_committed false lost_commit)
public_error-IsPublic_example =
    public_error-IsPublic plain_text one_committed messages_are_plain false lost_commit
      (λ code e. absurd (none≢some e))

reason_is_kept : (public_error plain_text one_committed false lost_commit).reason ≡ "COMMIT_LOST"
unfolding public_error first_error unknown_error fail validate message_ok any_rune contains outcome
    settled all_are
reason_is_kept = refl
