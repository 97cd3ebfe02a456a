-- ===== src/Agent/Artifacts/Sweep.antt =====
-- How the store ends what it keeps: `Sweep` and `RevokeGeneration` of internal/agent/artifacts/output.go
-- and `Close` of store.go. Errors are reported by the first one.
use text.Mathlib.Text.{◌==◌ as str_eq}
use onprest.Prelude.{
  ℕ, Bool, true, false, not, ◌&&◌, ◌||◌, [], ◌∷◌, Option, none, some, String, leb, if◌then◌else◌,
}
use onprest.Prelude.Dict.{Dict, lookup}
use onprest.Agent.Artifacts.{
  Fault, Stage, Phase, receiving, ready_to_run, aborted, released, Request, Reader, Store,
}
use onprest.Agent.Artifacts.Cleanup.{Disk, release_slot, cleanup, close_reader}
use onprest.Agent.Artifacts.Requests.{is_output, first_error, retire_stage, retire_all, put_request}

abbrev pub can_expire : Phase → Bool
can_expire receiving = true
can_expire ready_to_run = true
can_expire aborted = true
can_expire _ = false

-- One round of the first loop of `Sweep`.
unfoldable pub sweep_request :
    Disk → ℕ → (String → Bool) → String → Store → Option Request → Store × Option Fault
sweep_request disk now expired key s none = (s, none)
sweep_request disk now expired key s (some r) =
    if not r.started && (can_expire r.phase && (leb r.deadline now || (expired key || r.canceled)))
    then (let (t, e) =
          retire_all disk r.files
            (put_request key (record r { canceled = true; phase = released }) s) in
        (release_slot (some key) t, e))
    else (s, none)

-- The first loop of `Sweep`; `expired` tells for each request that its context has an error.
unfoldable pub sweep_requests :
    Disk → ℕ → (String → Bool) → Dict String → Store → Store × Option Fault
sweep_requests disk now expired [] s = (s, none)
sweep_requests disk now expired ((id, key) ∷ pending) s =
    let (t, e) = sweep_request disk now expired key s (lookup key s.requests) in
    let (u, e') = sweep_requests disk now expired pending t in (u, first_error e e')

-- A loop over the stages that the store has when it begins.
unfoldable pub each_stage :
    (String → Stage → Store → Store × Option Fault) → Dict Stage → Store → Store × Option Fault
each_stage f [] s = (s, none)
each_stage f ((id, st) ∷ stages) s =
    let (t, e) = f id st s in let (u, e') = each_stage f stages t in (u, first_error e e')

-- One round of the second loop of `Sweep`.
unfoldable pub sweep_stage : Disk → ℕ → String → Stage → Store → Store × Option Fault
sweep_stage disk now id st s =
    if st.listed && (st.retained && leb st.expires now)
    then cleanup disk id (retire_stage id s)
    else (s, none)

-- `Sweep`.
unfoldable pub sweep : Disk → ℕ → (String → Bool) → Store → Store × Option Fault
sweep disk now expired s =
    let (t, e) = sweep_requests disk now expired s.pending s in
    let (u, e') = each_stage (sweep_stage disk now) t.stages t in (u, first_error e e')

-- What `RevokeGeneration` does to a request.
unfoldable pub revoke_request : String → Request → Request
revoke_request generation r =
    if str_eq r.owner.auth_generation generation
    then record r { canceled = true; stopped = true; phase = aborted }
    else r

-- The loop of `RevokeGeneration` over the requests.
unfoldable pub revoke_requests : String → Dict String → Store → Store
revoke_requests generation [] s = s
revoke_requests generation ((id, key) ∷ pending) s =
    revoke_requests generation pending (elim (lookup key s.requests) [
      | none ↦ s
      | some r ↦ put_request key (revoke_request generation r) s
    ])

-- The contexts of a stage's readers are canceled.
unfoldable pub cancel_readers : String → Dict Reader → Dict Reader
cancel_readers id [] = []
cancel_readers id ((key, r) ∷ leases) =
    (key, if str_eq r.stage id && not r.is_closed then record r { canceled = true } else r)
    ∷ cancel_readers id leases

abbrev pub cancel_all : String → Store → Store
cancel_all id s = record s { leases = cancel_readers id s.leases }

unfoldable pub revoke_stage : Disk → String → String → Stage → Store → Store × Option Fault
revoke_stage disk generation id st s =
    if st.listed && (is_output st.kind && str_eq st.owner.auth_generation generation)
    then cleanup disk id (cancel_all id (retire_stage id s))
    else (s, none)

-- `RevokeGeneration`.
unfoldable pub revoke_generation : Disk → String → Store → Store × Option Fault
revoke_generation disk generation s =
    let t = revoke_requests generation s.pending s in
    each_stage (revoke_stage disk generation) t.stages t

-- What `Close` does to a request.
abbrev pub release_request : Request → Request
release_request r = record r { canceled = true; stopped = true; phase = released }

-- The loops of `Close`.
unfoldable pub release_requests : Dict String → Store → Store
release_requests [] s = s
release_requests ((id, key) ∷ pending) s =
    release_requests pending
      (elim (lookup key s.requests) [ none ↦ s | some r ↦ put_request key (release_request r) s ])

unfoldable pub close_readers : Disk → String → Dict Reader → Store → Store × Option Fault
close_readers disk id [] s = (s, none)
close_readers disk id ((key, r) ∷ leases) s =
    let (t, e) = if str_eq r.stage id then close_reader disk key s else (s, none) in
    let (u, e') = close_readers disk id leases t in (u, first_error e e')

unfoldable pub close_stage : Disk → String → Stage → Store → Store × Option Fault
close_stage disk id st s =
    if st.listed
    then (let (t, e) = close_readers disk id s.leases s in
        let (u, e') = cleanup disk id (retire_stage id t) in (u, first_error e e'))
    else (s, none)

-- The first call of `Close`.
unfoldable pub close_all : Disk → Store → Store × Option Fault
close_all disk s =
    let t = release_requests s.pending (record s { is_closed = true }) in
    let (u, e) = each_stage (close_stage disk) t.stages t in (record u { close_error = e }, e)

-- `Close`; closing the handles of the directories is left out.
unfoldable pub close : Disk → Store → Store × Option Fault
close disk s = if s.is_closed then (s, s.close_error) else close_all disk s
