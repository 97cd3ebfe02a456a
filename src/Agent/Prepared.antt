-- ===== src/Agent/Prepared.antt =====
-- The registry and the prepared executors of internal/agent/providers/lifecycle.go. A provider is known
-- by its capability's name; `closed` lists the providers whose `Close` was called, in that order, which
-- happens once `active`, the count of leases, is 0. A lease is the place of its flag in `released`.
pub mod Lifecycle
pub mod Preparation
use text.Mathlib.Text.{◌==◌ as str_eq}
use onprest.Prelude.{
  ℕ, zero, suc, ◌+◌, ◌-◌, Bool, true, false, not, ◌&&◌, ◌||◌, List, [], ◌∷◌, ◌++◌, Option, none,
  some, String, ◌==◌, if◌then◌else◌, length,
}
use mathlib.Core.List.{reverse}
use onprest.Prelude.Dict.{Dict, lookup}

-- The kinds that `NewRegistry` takes; a factory that is nil is `false`.
abbrev pub is_kind : String → Bool
is_kind kind =
    str_eq kind "db"
    || (str_eq kind "csv" || (str_eq kind "http" || (str_eq kind "file" || str_eq kind "wasm")))

unfoldable pub new_registry : Dict Bool → Option (List String)
new_registry [] = some []
new_registry ((kind, present) ∷ factories) =
    let rest = new_registry factories in
    if not present || not (is_kind kind)
    then none
    else elim rest [ none ↦ none | some kinds ↦ some (kind ∷ kinds) ]

pub data PrepareError (E : Type 0) : Type 0 where
  not_available preparation_failed no_provider cleanup_failed : PrepareError E
  because : E → PrepareError E

pub data LeaseError : Type 0 where
  prepared_is_closed capability_not_available : LeaseError

-- The phases of `Close`: not called, waiting for the leases, closing the providers, done.
pub data Closing : Type 0 where
  open_to_leases waiting done_closing : Closing

pub record Prepared : Type 0 where
  pub order : List String
  pub closing : Closing
  pub active : ℕ
  -- For each lease, in the order of acquisition, whether it was released.
  pub released : List Bool
  pub closed : List String

abbrev pub is_closing : Closing → Bool
is_closing open_to_leases = false
is_closing _ = true

unfoldable pub has_name : String → List String → Bool
has_name name [] = false
has_name name (k ∷ ks) = str_eq k name || has_name name ks

-- `Names`.
unfoldable pub names : Prepared → List String
names p = if is_closing p.closing then [] else p.order

-- `Snapshot`, its success.
unfoldable pub snapshot : String → Prepared → Bool
snapshot name p = not (not (has_name name p.order) || is_closing p.closing)

-- `Acquire`; the lease is the second part.
unfoldable pub acquire : String → Prepared → Prepared × (ℕ × Option LeaseError)
acquire name p =
    if is_closing p.closing
    then (p, (0, some prepared_is_closed))
    else if not (has_name name p.order)
    then (p, (0, some capability_not_available))
    else (
      record p { active = p.active + 1; released = p.released ++ false ∷ [] },
      (length p.released, none),
    )

unfoldable pub flag_at : ℕ → List Bool → Bool
flag_at i [] = true
flag_at zero (b ∷ bs) = b
flag_at (suc i) (b ∷ bs) = flag_at i bs

unfoldable pub set_flag : ℕ → List Bool → List Bool
set_flag i [] = []
set_flag zero (b ∷ bs) = true ∷ bs
set_flag (suc i) (b ∷ bs) = b ∷ set_flag i bs

-- `Release`, which does its work once.
unfoldable pub release : ℕ → Prepared → Prepared
release i p =
    if flag_at i p.released
    then p
    else record p { active = p.active - 1; released = set_flag i p.released }

-- `Close`: its start, which only the first call reaches.
unfoldable pub close_start : Prepared → Prepared
close_start p = if is_closing p.closing then p else record p { closing = waiting }

abbrev pub is_waiting : Closing → Bool
is_waiting waiting = true
is_waiting _ = false

-- `Close`: once no lease is active, every provider is closed, the last one first. The source's loop holds no
-- lock, but no other operation changes the state meanwhile: `Acquire` is refused and every lease is released.
unfoldable pub close_providers : Prepared → Prepared
close_providers p =
    if is_waiting p.closing && p.active == 0
    then record p { closing = done_closing; closed = p.closed ++ reverse p.order }
    else p

-- What preparing one capability comes to: `Resolve` fails, or the factory gives a provider or none,
-- with an error or none.
pub data Attempt (E : Type 0) : Type 0 where
  unresolved : E → Attempt E
  attempted : (provider failed : Bool) → Attempt E

abbrev pub empty_prepared : List String → Prepared
empty_prepared order = record {
  order = order;
  closing = open_to_leases;
  active = 0;
  released = [];
  closed = [];
}

-- `fail` of `Prepare`: what was prepared is closed. `clean` tells that no provider's `Close` fails.
unfoldable pub give_up :
    {E : Type 0} → Bool → List String → PrepareError E → Prepared × Option (PrepareError E)
give_up clean order e = (
  close_providers (close_start (empty_prepared order)),
  some (if clean then e else cleanup_failed),
)

-- What follows a capability that was prepared; `ended` is `ctx.Err()` after it, and `onward` the rest
-- of the loop.
unfoldable pub or_stop :
    {E : Type 0}
    → Bool
    → List String
    → Option E
    → Prepared × Option (PrepareError E)
    → Prepared × Option (PrepareError E)
or_stop clean order (some e) onward = give_up clean order (because e)
or_stop clean order none onward = onward

-- The body of the loop of `Prepare`.
unfoldable pub prepare_one :
    {E : Type 0}
    → Bool
    → List String
    → String
    → Option E
    → Attempt E
    → Prepared × Option (PrepareError E)
    → Prepared × Option (PrepareError E)
prepare_one clean order name ended (unresolved e) onward = give_up clean order (because e)
prepare_one clean order name ended (attempted provider failed) onward =
    let order' = if provider then order ++ name ∷ [] else order in
    if failed
    then give_up clean order' preparation_failed
    else if not provider
    then give_up clean order' no_provider
    else or_stop clean order' ended onward

-- The loop of `Prepare` over the sorted names. Where the source returns no executors, the result has
-- the closed ones, which shows what was closed.
unfoldable pub prepare_all :
    {E : Type 0}
    → Bool
    → (String → Attempt E)
    → (String → Option E)
    → List String
    → List String
    → Prepared × Option (PrepareError E)
prepare_all clean attempt ended order [] = (empty_prepared order, none)
prepare_all clean attempt ended order (name ∷ rest) =
    let onward = prepare_all clean attempt ended (order ++ name ∷ []) rest in
    prepare_one clean order name (ended name) (attempt name) onward

unfoldable pub all_available : (String → Bool) → List String → Bool
all_available available [] = true
all_available available (name ∷ rest) = available name && all_available available rest

-- `Prepare`, of the sorted names; `available` tells that the executor's kind is registered.
unfoldable pub prepare :
    {E : Type 0}
    → Bool
    → (String → Bool)
    → Option E
    → (String → Attempt E)
    → (String → Option E)
    → List String
    → Prepared × Option (PrepareError E)
prepare clean available ended_first attempt ended names =
    if not (all_available available names)
    then (empty_prepared [], some not_available)
    else elim ended_first [
      | some e ↦ (empty_prepared [], some (because e))
      | none ↦ prepare_all clean attempt ended [] names
    ]
