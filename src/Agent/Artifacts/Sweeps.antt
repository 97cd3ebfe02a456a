-- ===== src/Agent/Artifacts/Sweeps.antt =====
-- Sweeping, revoking and closing keep the usage.
use text.Mathlib.Text.{◌==◌ as str_eq}
use onprest.Prelude.{
  ℕ, ◌≡◌, refl, Bool, true, [], ◌∷◌, Option, none, some, String, arith, inl, inr, Bool-cases,
}
use onprest.Prelude.Dict.{Dict, sum, lookup, All-lookup}
use onprest.Agent.Artifacts.{Fault, Stage, released, Request, Reader, Store}
use onprest.Agent.Artifacts.Cleanup.{Disk, release_slot, close_reader}
use onprest.Agent.Artifacts.Requests.{retire_stage, retire_all, put_request}
use onprest.Agent.Artifacts.Sweep.{
  sweep_request, sweep_requests, each_stage, sweep_stage, sweep, revoke_request, revoke_requests,
  cancel_readers, revoke_stage, revoke_generation, release_request, release_requests, close_readers,
  close_stage, close_all, close, cancel_all,
}
use onprest.Agent.Artifacts.Valid.{RequestIsValid, IsValid, leases-IsValid}
use onprest.Agent.Artifacts.Leases.{reads}
use onprest.Agent.Artifacts.Quota.{release_slot-IsValid, cleanup-IsValid}
use onprest.Agent.Artifacts.Writes.{close_reader-IsValid}
use onprest.Agent.Artifacts.Inputs.{put_request-IsValid, retire_stage-IsValid, retire_all-IsValid}

swept-IsValid :
    (disk : Disk) (key : String) (r : Request) (s : Store)
    → IsValid s
    → lookup key s.requests ≡ some r
    → IsValid (
        release_slot
          (some key)
          (retire_all disk r.files
            (put_request key (record r { canceled = true; phase = released }) s)).0)
swept-IsValid disk key r s v e =
    let r' = record r { canceled = true; phase = released } in
    release_slot-IsValid (some key) (retire_all disk r.files (put_request key r' s)).0 (
      retire_all-IsValid disk r.files (put_request key r' s) (
        put_request-IsValid key r' s v
          (All-lookup RequestIsValid key r s.requests v.requests_valid e)))

sweep_requests-IsValid :
    (disk : Disk) (now : ℕ) (expired : String → Bool) (pending : Dict String) (s : Store)
    → IsValid s
    → IsValid (sweep_requests disk now expired pending s).0
unfolding sweep_requests sweep_request
sweep_requests-IsValid disk now expired [] s v = v
sweep_requests-IsValid disk now expired ((id, key) ∷ pending) s v =
    sweep_requests-IsValid disk now expired pending
      (sweep_request disk now expired key s (lookup key s.requests)).0
      (one (lookup key s.requests) refl)
  where
    one :
        (o : Option Request)
        → lookup key s.requests ≡ o
        → IsValid (sweep_request disk now expired key s o).0
    one none e = v
    one (some r) e = ground (arith, v, swept-IsValid disk key r s v e)

each_stage-IsValid :
    (f : String → Stage → Store → Store × Option Fault) (stages : Dict Stage) (s : Store)
    → ((id : String) (st : Stage) (t : Store) → IsValid t → IsValid (f id st t).0)
    → IsValid s
    → IsValid (each_stage f stages s).0
unfolding each_stage
each_stage-IsValid f [] s each v = v
each_stage-IsValid f ((id, st) ∷ stages) s each v =
    each_stage-IsValid f stages (f id st s).0 each (each id st s v)

sweep_stage-IsValid :
    (disk : Disk) (now : ℕ) (id : String) (st : Stage) (s : Store)
    → IsValid s
    → IsValid (sweep_stage disk now id st s).0
unfolding sweep_stage
sweep_stage-IsValid disk now id st s v =
    ground (arith, v, cleanup-IsValid disk id (retire_stage id s) (retire_stage-IsValid id s v))

pub sweep-IsValid :
    (disk : Disk) (now : ℕ) (expired : String → Bool) (s : Store)
    → IsValid s
    → IsValid (sweep disk now expired s).0
unfolding sweep
sweep-IsValid disk now expired s v =
    each_stage-IsValid (sweep_stage disk now) _ _ (sweep_stage-IsValid disk now)
      (sweep_requests-IsValid disk now expired s.pending s v)

changed-IsValid :
    (change : Request → Request) (key : String) (s : Store) (o : Option Request)
    → IsValid s
    → lookup key s.requests ≡ o
    → ((r : Request) → RequestIsValid r → RequestIsValid (change r))
    → IsValid (elim o [ none ↦ s | some r ↦ put_request key (change r) s ])
changed-IsValid change key s none v e keeps = v
changed-IsValid change key s (some r) v e keeps =
    put_request-IsValid key (change r) s v
      (keeps r (All-lookup RequestIsValid key r s.requests v.requests_valid e))

revoke_requests-IsValid :
    (generation : String) (pending : Dict String) (s : Store)
    → IsValid s
    → IsValid (revoke_requests generation pending s)
unfolding revoke_requests revoke_request
revoke_requests-IsValid generation [] s v = v
revoke_requests-IsValid generation ((id, key) ∷ pending) s v =
    revoke_requests-IsValid generation pending _ (
      changed-IsValid (revoke_request generation) key s (lookup key s.requests) v refl
        (λ r ok. ground (arith, ok)))

sum-cancel_readers :
    (k id : String) (leases : Dict Reader)
    → sum (reads k) (cancel_readers id leases) ≡ sum (reads k) leases
unfolding sum cancel_readers
sum-cancel_readers k id [] = refl
sum-cancel_readers k id ((key, r) ∷ leases) = ground (arith, sum-cancel_readers k id leases)

cancel_all-IsValid : (id : String) (s : Store) → IsValid s → IsValid (cancel_all id s)
cancel_all-IsValid id s v =
    leases-IsValid (cancel_readers id s.leases) s v
      (λ k. omega (arith, v.readers_counted k, sum-cancel_readers k id s.leases))

revoke_stage-IsValid :
    (disk : Disk) (generation id : String) (st : Stage) (s : Store)
    → IsValid s
    → IsValid (revoke_stage disk generation id st s).0
unfolding revoke_stage
revoke_stage-IsValid disk generation id st s v = ground (
  arith,
  v,
  cleanup-IsValid disk id (cancel_all id (retire_stage id s))
      (cancel_all-IsValid id (retire_stage id s) (retire_stage-IsValid id s v)),
)

pub revoke_generation-IsValid :
    (disk : Disk) (generation : String) (s : Store)
    → IsValid s
    → IsValid (revoke_generation disk generation s).0
unfolding revoke_generation
revoke_generation-IsValid disk generation s v =
    each_stage-IsValid (revoke_stage disk generation) _ _ (revoke_stage-IsValid disk generation)
      (revoke_requests-IsValid generation s.pending s v)

release_requests-IsValid :
    (pending : Dict String) (s : Store) → IsValid s → IsValid (release_requests pending s)
unfolding release_requests
release_requests-IsValid [] s v = v
release_requests-IsValid ((id, key) ∷ pending) s v =
    release_requests-IsValid pending _
      (changed-IsValid release_request key s (lookup key s.requests) v refl (λ r ok. ok))

close_readers-IsValid :
    (disk : Disk) (id : String) (leases : Dict Reader) (s : Store)
    → IsValid s
    → IsValid (close_readers disk id leases s).0
unfolding close_readers
close_readers-IsValid disk id [] s v = v
close_readers-IsValid disk id ((key, r) ∷ leases) s v = elim (Bool-cases (str_eq r.stage id)) [
  | inl its ↦ rw its (
      close_readers-IsValid disk id leases (close_reader disk key s).0
        (close_reader-IsValid disk key s v))
  | inr other ↦ rw other (close_readers-IsValid disk id leases s v)
]

close_stage-IsValid :
    (disk : Disk) (id : String) (st : Stage) (s : Store)
    → IsValid s
    → IsValid (close_stage disk id st s).0
unfolding close_stage
close_stage-IsValid disk id st s v =
    let t = (close_readers disk id s.leases s).0 in
    ground (
      arith,
      v,
      cleanup-IsValid disk id (retire_stage id t)
          (retire_stage-IsValid id t (close_readers-IsValid disk id s.leases s v)),
    )

flagged-IsValid :
    (closed : Bool) (e : Option Fault) (s : Store)
    → IsValid s
    → IsValid (record s { is_closed = closed; close_error = e })
flagged-IsValid closed e s v = record {
  usage = v.usage;
  within_quota = v.within_quota;
  few_objects = v.few_objects;
  few_readers = v.few_readers;
  few_pending = v.few_pending;
  stages_valid = v.stages_valid;
  requests_valid = v.requests_valid;
  scopes_valid = v.scopes_valid;
  readers_counted = v.readers_counted;
}

close_all-IsValid : (disk : Disk) (s : Store) → IsValid s → IsValid (close_all disk s).0
unfolding close_all
close_all-IsValid disk s v = flagged-IsValid _ _ _ (
    each_stage-IsValid (close_stage disk) _ _ (close_stage-IsValid disk)
      (release_requests-IsValid s.pending _ (flagged-IsValid true s.close_error s v)))

pub close-IsValid : (disk : Disk) (s : Store) → IsValid s → IsValid (close disk s).0
unfolding close
close-IsValid disk s v = ground (arith, v, close_all-IsValid disk s v)
