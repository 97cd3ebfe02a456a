-- ===== src/Agent/Effects.antt =====
-- The effects of internal/agent/providers/lifecycle.go: what an execution has done to its business
-- resources. A handle is the place of its operation in the list. `Status` holds the words that the
-- source uses for an operation's state and for an outcome, since an outcome can be a state.
pub mod Outcomes
use onprest.Prelude.{
  ℕ, zero, suc, Bool, true, false, not, ◌&&◌, List, [], ◌∷◌, ◌++◌, if◌then◌else◌, length,
}

pub data Status : Type 0 where
  not_started no_change unknown committed rolled_back uncertain : Status

abbrev pub is_committed : Status → Bool
is_committed committed = true
is_committed _ = false

abbrev pub is_rolled_back : Status → Bool
is_rolled_back rolled_back = true
is_rolled_back _ = false

abbrev pub status_eq : Status → Status → Bool
status_eq not_started not_started = true
status_eq no_change no_change = true
status_eq unknown unknown = true
status_eq committed committed = true
status_eq rolled_back rolled_back = true
status_eq uncertain uncertain = true
status_eq _ _ = false

pub record Effects : Type 0 where
  pub started : Bool
  pub no_changes : Bool
  pub operations : List Status

abbrev pub new_effects : Effects
new_effects = record { started = false; no_changes = false; operations = [] }

unfoldable pub start : Effects → Effects
start e = record e { started = true }

-- `NoChange`.
unfoldable pub mark_no_change : Effects → Effects
mark_no_change e = record e { no_changes = true }

abbrev pub no_operations : List Status → Bool
no_operations [] = true
no_operations (s ∷ ops) = false

-- `NotStarted`.
unfoldable pub mark_not_started : Effects → Effects
mark_not_started e = if no_operations e.operations then record e { started = false } else e

-- `Begin`; the handle is the second part.
unfoldable pub begin : Effects → Effects × ℕ
begin e = (record e { operations = e.operations ++ unknown ∷ [] }, length e.operations)

unfoldable pub finish_state : Status → Status → Status
finish_state state unknown = state
finish_state state old = if not (status_eq old state) then uncertain else old

unfoldable pub finish_at : ℕ → Status → List Status → List Status
finish_at i state [] = []
finish_at zero state (s ∷ ops) = finish_state state s ∷ ops
finish_at (suc i) state (s ∷ ops) = s ∷ finish_at i state ops

-- `Committed` and `RolledBack` of the operation `i`.
unfoldable pub finish : ℕ → Status → Effects → Effects
finish i state e = record e { operations = finish_at i state e.operations }

unfoldable pub all_are : Status → List Status → Bool
all_are state [] = true
all_are state (s ∷ ops) = status_eq s state && all_are state ops

unfoldable pub settled : Bool → List Status → Status
settled no_changes [] = if no_changes then no_change else unknown
settled no_changes (s ∷ ops) =
    if not (is_committed s) && not (is_rolled_back s)
    then unknown
    else if all_are s ops
    then s
    else unknown

-- `Outcome`.
unfoldable pub outcome : Effects → Status
outcome e = if not e.started then not_started else settled e.no_changes e.operations
