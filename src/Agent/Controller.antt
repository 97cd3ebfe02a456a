-- ===== src/Agent/Controller.antt =====
-- The admission of internal/agent/controller.go: `Execute` up to the start of the provider and its
-- deferred calls, and `admit`. What a library or a part outside of this model says of a request is a field
-- of `Call`; the times at which a deadline has passed are separate fields.
pub mod Running
pub mod PublicError
use text.Mathlib.Text.{◌==◌ as str_eq}
use onprest.Prelude.{
  ℕ, ◌+◌, ◌-◌, Bool, true, false, not, ◌&&◌, ◌||◌, List, [], ◌∷◌, ◌++◌, Option, none, some, String,
  length, leb, ltb, ◌==◌, if◌then◌else◌,
}
use onprest.Prelude.Dict.{Dict, lookup, insert}
use onprest.Agent.RateLimit.{Limiter, take}
use onprest.Agent.Prepared.{LeaseError, Prepared, acquire, release, snapshot}

pub data Refusal : Type 0 where
  execution_timeout invalid_request not_found conflict : Refusal
  execution_failed validation_failed rate_limited busy : Refusal

pub record Call : Type 0 where
  pub valid_id : Bool
  pub capability : String
  pub definition_hash : String
  -- Set by the dispatcher after `admit`.
  pub admitted : Bool
  -- The capability's timeout in nanoseconds, if it can be parsed and is not negative.
  pub timeout : Option ℕ
  pub takes_files : Bool
  pub valid_input : Bool
  -- The request ID of every file in the input is that of the request.
  pub own_files : Bool
  pub has_files : Bool
  -- `Start` and `Context` of the request's files succeed; `true` where it has none.
  pub input_starts : Bool
  pub expired_at_start : Bool
  pub expired_on_input : Bool
  pub expired_when_admitted : Bool

pub record Controller : Type 0 where
  pub prepared : Prepared
  pub active : ℕ
  pub max : ℕ
  pub rates : Dict Limiter
  -- The leases of the calls that were admitted and have not returned.
  pub running : List ℕ

abbrev pub new_controller : ℕ → Dict Limiter → Prepared → Controller
new_controller max rates p = record {
  prepared = p;
  active = 0;
  max = max;
  rates = rates;
  running = [];
}

unfoldable pub timeout_ok : Option ℕ → Bool
timeout_ok none = false
timeout_ok (some d) = ltb 0 d && leb d 300_000_000_000

-- The guards between the lease and the rate limit; `hash` is the snapshot's.
unfoldable pub call_refusal : Call → String → Option Refusal
call_refusal call hash =
    if not (str_eq call.definition_hash "") && not (str_eq call.definition_hash hash)
    then some conflict
    else if not (timeout_ok call.timeout)
    then some execution_failed
    else if not call.valid_input
    then some (if call.expired_on_input then execution_timeout else validation_failed)
    else if not call.own_files
    then some validation_failed
    else if call.expired_on_input
    then some execution_timeout
    else none

-- The rate limit of a capability, where it has one.
unfoldable pub take_rate : Bool → String → ℕ → Dict Limiter → Dict Limiter × Bool
take_rate admitted name now rates = elim (lookup name rates) [
  | none ↦ (rates, true)
  | some b ↦
      if admitted
      then (rates, true)
      else let (b', allowed, sampled) = take b now in (insert name b' rates, allowed)
]

abbrev pub drop_lease : ℕ → Controller → Controller
drop_lease i c = record c { prepared = release i c.prepared }

-- The first running call with a lease is taken out.
unfoldable pub without : ℕ → List ℕ → List ℕ
without i [] = []
without i (j ∷ js) = let rest = without i js in if j == i then js else j ∷ rest

unfoldable pub is_running : ℕ → List ℕ → Bool
is_running i [] = false
is_running i (j ∷ js) = j == i || is_running i js

-- The return of the call with the lease `i`: its place and its lease are given back.
unfoldable pub leave : ℕ → Controller → Controller
leave i c = if not (is_running i c.running) then c else record c {
  active = c.active - 1;
  running = without i c.running;
  prepared = release i c.prepared;
}

-- The call takes one of the places.
abbrev pub occupied : ℕ → Controller → Controller
occupied i c = record c { active = c.active + 1; running = c.running ++ i ∷ [] }

-- `Execute` from the rate limit to the start of the effects.
unfoldable pub occupy : Call → ℕ → Bool → Controller → Controller × Option Refusal
occupy call i allowed c =
    if not allowed
    then (drop_lease i c, some rate_limited)
    else if leb c.max c.active
    then (drop_lease i c, some busy)
    else if call.expired_when_admitted
    then (leave i (occupied i c), some execution_timeout)
    else if not call.input_starts
    then (leave i (occupied i c), some validation_failed)
    else (occupied i c, none)

-- `Execute` with its lease `i`.
unfoldable pub with_lease : ℕ → Call → ℕ → Option Refusal → Controller → Controller × Option Refusal
with_lease now call i (some e) c = (drop_lease i c, some e)
with_lease now call i none c =
    let (rates, allowed) = take_rate call.admitted call.capability now c.rates in
    occupy call i allowed (record c { rates = rates })

-- The lease of `Execute`, or why it has none.
unfoldable pub leased :
    ℕ
    → Call
    → String
    → Controller
    → Prepared × (ℕ × Option LeaseError)
    → Controller × Option Refusal
leased now call hash c (p, (i, some e)) = (c, some not_found)
leased now call hash c (p, (i, none)) =
    with_lease now call i (call_refusal call hash) (record c { prepared = p })

-- `Execute`, to the start of the effects.
unfoldable pub enter : ℕ → Call → String → Controller → Controller × Option Refusal
enter now call hash c =
    if call.expired_at_start
    then (c, some execution_timeout)
    else if not call.valid_id
    then (c, some invalid_request)
    else leased now call hash c (acquire call.capability c.prepared)

-- `admit`.
unfoldable pub admit : ℕ → Call → String → Controller → Controller × Option Refusal
admit now call hash c =
    let (rates, allowed) = take_rate false call.capability now c.rates in
    if call.expired_at_start
    then (c, some execution_timeout)
    else if not (snapshot call.capability c.prepared)
    then (c, some not_found)
    else if str_eq call.definition_hash ""
    then (c, some invalid_request)
    else if not (str_eq call.definition_hash hash)
    then (c, some conflict)
    else if call.takes_files
    then (c, some invalid_request)
    else if not call.valid_input || call.has_files
    then (c, some validation_failed)
    else if allowed
    then (record c { rates = rates }, none)
    else (record c { rates = rates }, some rate_limited)
