-- ===== src/Agent/Artifacts/Inputs.antt =====
-- The operations on requests keep the usage.
use onprest.Prelude.{
  ℕ, ◌+◌, ◌≡◌, refl, Bool, true, false, ◌||◌, List, [], ◌∷◌, Option, none, some, String, Bytes,
  arith, inl, inr, leb, Option-cases,
}
use onprest.Prelude.Dict.{Dict, lookup, insert, size, All-lookup, All-insert, size-insert-le}
use onprest.Agent.Artifacts.{
  Fault, Owner, input, Stage, receiving, executing, ready_to_run, released, Request, Store,
}
use onprest.Agent.Artifacts.Stages.{Creation, put, new_file_stage, new_stage}
use onprest.Agent.Artifacts.Cleanup.{Disk, cleanup}
use onprest.Agent.Artifacts.Input.{
  Capability, new_request, earlier, begin_input, new_file, new_file_checked, check, request_found,
  on_request, FileValue, Leaf,
}
use onprest.Agent.Artifacts.Requests.{
  put_request, complete, commit, open_claimed, open_file, start, abort_locked, abort_request,
  retire_stage, retire_all, release_stopped_locked, release_stopped, abort_stage,
}
use onprest.Agent.Artifacts.Valid.{
  StageIsValid, RequestIsValid, IsValid, touch-IsValid, pending-IsValid, requests-IsValid,
  on_stage-IsValid,
}
use onprest.Agent.Artifacts.Quota.{
  new_stage-IsValid, release_slot-IsValid, cleanup-IsValid, open_locked-IsValid,
}

pub put_request-IsValid :
    (key : String) (r : Request) (s : Store)
    → IsValid s
    → RequestIsValid r
    → IsValid (put_request key r s)
put_request-IsValid key r s v ok =
    requests-IsValid (insert key r s.requests) s v
      (All-insert RequestIsValid key r s.requests v.requests_valid ok)

-- An operation on a request keeps the store valid, where it does so on a valid request.
pub on_request-IsValid :
    (key : String) (f : Request → Store × Option Fault) (s : Store)
    → IsValid s
    → ((r : Request) → RequestIsValid r → IsValid (f r).0)
    → IsValid (on_request key f s).0
on_request-IsValid key f s v each = found (lookup key s.requests) refl
  where
    found : (o : Option Request) → lookup key s.requests ≡ o → IsValid (request_found f s o).0
    found none e = v
    found (some r) e = each r (All-lookup RequestIsValid key r s.requests v.requests_valid e)

begun-IsValid :
    (key : String) (o : Owner) (c : Capability) (deadline : ℕ) (s : Store)
    → IsValid s
    → leb s.options.max_pending (size s.pending) ≡ false
    → IsValid (record s {
      requests = insert key (new_request o c deadline) s.requests;
      pending = insert o.request_id key s.pending;
    })
begun-IsValid key o c deadline s v room =
    pending-IsValid (insert o.request_id key s.pending)
      (put_request key (new_request o c deadline) s)
      (put_request-IsValid key (new_request o c deadline) s v (omega arith))
      (ground (arith, room, size-insert-le o.request_id key s.pending))

pub begin_input-IsValid :
    (valid_owner expired : Bool) (limit asked : Option ℕ) (now : ℕ) (key : String) (o : Owner)
    (c : Capability) (s : Store)
    → IsValid s
    → IsValid (begin_input valid_owner expired limit asked now key o c s).0
unfolding begin_input
begin_input-IsValid valid_owner expired limit asked now key o c s v = ground (
  arith,
  v,
  begun-IsValid key o c (earlier (earlier (now + s.options.transfer_timeout) asked) limit) s v,
)

pub new_file_checked-IsValid :
    (late valid : Bool) (creation : Creation) (pointer name media new key : String) (r : Request)
    (s : Store) (refusal : Option Fault)
    → IsValid s
    → RequestIsValid r
    → lookup new s.stages ≡ none
    → IsValid (new_file_checked late valid creation pointer name media new key r s refusal).0
unfolding new_file_checked
new_file_checked-IsValid late valid creation pointer name media new key r s (some e) v ok fresh = v
new_file_checked-IsValid late valid creation pointer name media new key r s none v ok fresh =
    let st = record (new_file_stage r.owner input name media) { request = some key } in
    let made = new_stage-IsValid valid late creation new st s v fresh refl refl in
    ground (
      arith,
      v,
      made,
      put_request-IsValid key (record r { files = insert pointer new r.files })
          (new_stage valid late creation new st s).0 made ok,
    )

pub new_file-IsValid :
    (expired late valid : Bool) (creation : Creation) (pointer name media new key : String)
    (o : Owner) (s : Store)
    → IsValid s
    → lookup new s.stages ≡ none
    → IsValid (new_file expired late valid creation pointer name media new key o s).0
unfolding new_file
new_file-IsValid expired late valid creation pointer name media new key o s v fresh =
    on_request-IsValid key _ s v (λ r ok.
      new_file_checked-IsValid late valid creation pointer name media new key r s
        (check expired o _ r s) v ok fresh)

pub complete-IsValid :
    (sha : Bytes → String) (expired fits : Bool) (key id : String) (o : Owner) (size_bytes : ℕ)
    (digest : String) (s : Store)
    → IsValid s
    → IsValid (complete sha expired fits key id o size_bytes digest s).0
unfolding complete
complete-IsValid sha expired fits key id o size_bytes digest s v =
    on_request-IsValid key _ s v (λ r ok. elim (Option-cases (check expired o receiving r s)) [
      | inr (e, refused) ↦ rw refused v
      | inl free ↦ rw free (elim (Option-cases (lookup id s.stages)) [
        | inl missing ↦ rw missing v
        | inr (st, e) ↦ rw e (
            ground (
              arith,
              v,
              touch-IsValid id st (record st { ready = true }) s v e
                  (All-lookup StageIsValid id st s.stages v.stages_valid e) refl refl (omega arith),
            ))
      ])
    ])

pub start-IsValid :
    (expired done : Bool) (key : String) (o : Owner) (s : Store)
    → IsValid s
    → IsValid (start expired done key o s).0
unfolding start
start-IsValid expired done key o s v = on_request-IsValid key _ s v (λ r ok.
    elim (Option-cases (check expired o ready_to_run r s)) [
      | inr (e, refused) ↦ rw refused v
      | inl free ↦ rw free (
          ground (
            arith,
            v,
            put_request-IsValid key
                (record r { phase = executing; started = true; canceled = true }) s v ok,
          ))
    ])

pub commit-IsValid :
    (sha : Bytes → String) (expired : Bool) (key : String) (o : Owner) (leaves : Option (List Leaf))
    (s : Store)
    → IsValid s
    → IsValid (commit sha expired key o leaves s).0
unfolding commit
commit-IsValid sha expired key o leaves s v =
    on_request-IsValid key _ s v (λ r ok.
      ground (arith, v, put_request-IsValid key (record r { phase = ready_to_run }) s v ok))

pub open_file-IsValid :
    (sha : Bytes → String) (expired : Bool) (opens : Option Fault) (lease key : String) (o : Owner)
    (f : FileValue) (s : Store)
    → IsValid s
    → IsValid (open_file sha expired opens lease key o f s).0
unfolding open_file open_claimed
open_file-IsValid sha expired opens lease key o f s v = on_request-IsValid key _ s v (λ r ok.
    elim (Option-cases (check expired o executing r s)) [
      | inr (e, refused) ↦ rw refused v
      | inl free ↦ elim (Option-cases (lookup f.pointer r.files)) [
        | inl gone ↦ rw (free, gone) v
        | inr (id, here) ↦
            rw (free, here)
              (ground (
                arith,
                v,
                on_stage-IsValid id (open_claimed sha (expired || r.stopped) opens lease id f s) s v
                    (λ st e.
                      ground
                        (arith, v, open_locked-IsValid (expired || r.stopped) opens lease id s v)),
              ))
      ]
    ])

abort_locked-IsValid : (r : Request) → RequestIsValid r → RequestIsValid (abort_locked r)
unfolding abort_locked
abort_locked-IsValid r ok = ground (arith, ok)

pub abort_request-IsValid :
    (key : String) (o : Owner) (s : Store) → IsValid s → IsValid (abort_request key o s).0
unfolding abort_request
abort_request-IsValid key o s v = on_request-IsValid key _ s v (λ r ok.
    ground (arith, v, put_request-IsValid key (abort_locked r) s v (abort_locked-IsValid r ok)))

pub retire-IsValid :
    (id : String) (st : Stage) (s : Store)
    → IsValid s
    → lookup id s.stages ≡ some st
    → IsValid (put id (record st { retired = true }) s)
retire-IsValid id st s v e =
    touch-IsValid id st (record st { retired = true }) s v e
      (λ unlisted. (refl, (All-lookup StageIsValid id st s.stages v.stages_valid e unlisted).1))
      refl refl (omega arith)

pub retire_stage-IsValid : (id : String) (s : Store) → IsValid s → IsValid (retire_stage id s)
retire_stage-IsValid id s v = found (lookup id s.stages) refl
  where
    found :
        (o : Option Stage)
        → lookup id s.stages ≡ o
        → IsValid (elim o [ none ↦ s | some st ↦ put id (record st { retired = true }) s ])
    found none e = v
    found (some st) e = retire-IsValid id st s v e

pub retire_all-IsValid :
    (disk : Disk) (files : Dict String) (s : Store)
    → IsValid s
    → IsValid (retire_all disk files s).0
unfolding retire_all
retire_all-IsValid disk [] s v = v
retire_all-IsValid disk ((pointer, id) ∷ files) s v =
    retire_all-IsValid disk files (cleanup disk id (retire_stage id s)).0
      (cleanup-IsValid disk id (retire_stage id s) (retire_stage-IsValid id s v))

pub release_stopped_locked-IsValid :
    (disk : Disk) (key : String) (r : Request) (s : Store)
    → IsValid s
    → RequestIsValid r
    → IsValid (release_stopped_locked disk key r s).0
unfolding release_stopped_locked
release_stopped_locked-IsValid disk key r s v ok =
    let r' = record r { canceled = true; stopped = true; phase = released } in
    release_slot-IsValid (some key) (retire_all disk r.files (put_request key r' s)).0
      (retire_all-IsValid disk r.files (put_request key r' s) (put_request-IsValid key r' s v ok))

pub release_stopped-IsValid :
    (disk : Disk) (key : String) (o : Owner) (s : Store)
    → IsValid s
    → IsValid (release_stopped disk key o s).0
unfolding release_stopped
release_stopped-IsValid disk key o s v =
    on_request-IsValid key _ s v
      (λ r ok. ground (arith, v, release_stopped_locked-IsValid disk key r s v ok))

abort_both-IsValid :
    (disk : Disk) (key : String) (s : Store) (r : Request)
    → IsValid s
    → RequestIsValid r
    → IsValid
        (release_stopped_locked disk key (abort_locked r) (put_request key (abort_locked r) s)).0
abort_both-IsValid disk key s r v ok =
    release_stopped_locked-IsValid disk key (abort_locked r) (put_request key (abort_locked r) s)
      (put_request-IsValid key (abort_locked r) s v (abort_locked-IsValid r ok))
      (abort_locked-IsValid r ok)

pub abort_stage-IsValid :
    (disk : Disk) (id : String) (s : Store) → IsValid s → IsValid (abort_stage disk id s).0
unfolding abort_stage
abort_stage-IsValid disk id s v = on_stage-IsValid id _ s v (λ st e.
    elim (Option-cases st.request) [
      | inl alone ↦ rw alone (
          ground (
            arith,
            v,
            cleanup-IsValid disk id (put id (record st { retired = true }) s)
                (retire-IsValid id st s v e),
          ))
      | inr (key, owned) ↦ rw owned (
          on_request-IsValid key _ s v (λ r ok. ground (
            arith,
            put_request-IsValid key (abort_locked r) s v (abort_locked-IsValid r ok),
            abort_both-IsValid disk key s r v ok,
          )))
    ])
