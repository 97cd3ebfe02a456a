-- ===== src/Samples/Execution.antt =====
-- Effects and prepared executors on concrete inputs.
use mathlib.Core.List.{reverse}
use text.Mathlib.Text.{◌==◌ as str_eq}
use onprest.Prelude.{◌⊎◌, ℕ, ◌≡◌, refl, true, false, [], ◌∷◌, none, String}
use onprest.Agent.Effects.{committed, uncertain, Effects, outcome}
use onprest.Agent.Effects.Outcomes.{count, tally, outcome-tally}
use onprest.Agent.Prepared.{
  Prepared, Attempt, attempted, open_to_leases, acquire, release, close_start, close_providers,
  prepare_all, prepare_one, give_up, or_stop, flag_at, set_flag, has_name,
}
use onprest.Agent.Prepared.Lifecycle.{Step, Reachable, closed_once}
use onprest.Agent.Prepared.Preparation.{Ends, prepare_all-Ends}

abbrev both_reports : Effects
both_reports = record {
  started = true;
  no_changes = false;
  operations = committed ∷ uncertain ∷ [];
}

outcome-tally_example : outcome both_reports ≡ tally false 2 1 0
unfolding count
outcome-tally_example = outcome-tally both_reports

abbrev leased : Prepared
leased = record {
  order = "a" ∷ "b" ∷ [];
  closing = open_to_leases;
  active = 1;
  released = false ∷ [];
  closed = [];
}

leased_reachable : Reachable ("a" ∷ "b" ∷ []) leased
unfolding acquire has_name
leased_reachable = Reachable.after Reachable.start (Step.acquired "b")

abbrev waited : Prepared
waited = close_providers (close_start leased)

waited_reachable : Reachable ("a" ∷ "b" ∷ []) waited
waited_reachable =
    Reachable.after (Reachable.after leased_reachable Step.began_close) Step.closed_providers

abbrev finished : Prepared
finished = close_providers (release 0 waited)

finished_reachable : Reachable ("a" ∷ "b" ∷ []) finished
finished_reachable =
    Reachable.after (Reachable.after waited_reachable (Step.was_released 0)) Step.closed_providers

all_closed : finished.closed ≡ "b" ∷ "a" ∷ []
unfolding close_providers close_start release flag_at set_flag
all_closed = refl

closed_once_example :
    (finished.closed ≡ []) ⊎ ((finished.active ≡ 0) × (finished.closed ≡ reverse ("a" ∷ "b" ∷ [])))
closed_once_example = closed_once ("a" ∷ "b" ∷ []) finished finished_reachable

-- The second of three capabilities fails after it gave a provider.
abbrev second_fails : String → Attempt ℕ
second_fails name = attempted true (str_eq name "b")

prepare_all-Ends_example :
    Ends second_fails
      (λ name. none)
      []
      ("a" ∷ "b" ∷ "c" ∷ [])
      (prepare_all true second_fails (λ name. none) [] ("a" ∷ "b" ∷ "c" ∷ []))
prepare_all-Ends_example =
    prepare_all-Ends second_fails (λ name. none) true [] ("a" ∷ "b" ∷ "c" ∷ [])

second_is_closed_first :
    (prepare_all true second_fails (λ name. none) [] ("a" ∷ "b" ∷ "c" ∷ [])).0.closed
    ≡ "b" ∷ "a" ∷ []
unfolding prepare_all prepare_one give_up or_stop close_providers close_start
second_is_closed_first = refl
