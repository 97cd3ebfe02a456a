-- ===== src/Agent/Artifacts/Reachable.antt =====
-- The states that the operations of a store reach, in any order and with any answer of the disk. A new
-- stage or reservation has a pointer, or an identifier, that no other has had.
use text.Mathlib.TextPositions.{eq_refl}
use onprest.Prelude.{
  ℕ, ◌≤◌, ◌≡◌, refl, Bool, true, false, Bool-cases, inl, inr, List, Option, none, some, String,
  Bytes, arith,
}
use onprest.Prelude.Dict.{lookup, size, sum, sum-lookup-le, All-lookup}
use onprest.Agent.Artifacts.{
  Fault, Owner, Limits, Options, Reservation, Stage, Reader, Store, new_store, reserve, release,
}
use onprest.Agent.Artifacts.Stages.{Creation, write, seal}
use onprest.Agent.Artifacts.Cleanup.{Disk, close_reader}
use onprest.Agent.Artifacts.Input.{Capability, begin_input, new_file, Claims, FileValue, Leaf}
use onprest.Agent.Artifacts.Requests.{
  complete, commit, open_file, start, abort_request, release_stopped, abort_stage,
}
use onprest.Agent.Artifacts.Output.{
  new_output, begin_output, finish, retain, open_output, new_scratch,
}
use onprest.Agent.Artifacts.Saves.{settle_save, settle_save-IsValid}
use onprest.Agent.Artifacts.Sweep.{sweep, revoke_generation, close}
use onprest.Agent.Artifacts.Valid.{IsValid, StageIsValid}
use onprest.Agent.Artifacts.Leases.{reads, readers_of}
use onprest.Agent.Artifacts.Quota.{reserve-IsValid, release-IsValid, seal-IsValid}
use onprest.Agent.Artifacts.Writes.{write-IsValid, close_reader-IsValid}
use onprest.Agent.Artifacts.Inputs.{
  begin_input-IsValid, new_file-IsValid, complete-IsValid, commit-IsValid, open_file-IsValid,
  start-IsValid, abort_request-IsValid, release_stopped-IsValid, abort_stage-IsValid,
}
use onprest.Agent.Artifacts.Outputs.{
  new_output-IsValid, begin_output-IsValid, finish-IsValid, retain-IsValid, open_output-IsValid,
  new_scratch-IsValid,
}
use onprest.Agent.Artifacts.Sweeps.{sweep-IsValid, revoke_generation-IsValid, close-IsValid}

module _ (sha : Bytes → String) where
  pub data Step (s : Store) : Store → Type 0 where
    reserved :
        (key : String) (n : ℕ) → lookup key s.reservations ≡ none → Step s (reserve key n s).0
    given_back : (key : String) → Step s (release key s)
    wrote :
        (expired : Bool) (id : String) (p : Bytes) (n : ℕ) (failed : Bool)
        → Step s (write expired id p n failed s).0
    sealed : (fails : Bool) (id : String) → Step s (seal fails id s).0
    reader_closed : (disk : Disk) (key : String) → Step s (close_reader disk key s).0
    input_begun :
        (valid expired : Bool) (limit asked : Option ℕ) (now : ℕ) (key : String) (o : Owner)
        (c : Capability)
        → Step s (begin_input valid expired limit asked now key o c s).0
    file_begun :
        (expired late valid : Bool) (c : Creation) (pointer name media id key : String) (o : Owner)
        → lookup id s.stages ≡ none
        → Step s (new_file expired late valid c pointer name media id key o s).0
    file_completed :
        (expired fits : Bool) (key id : String) (o : Owner) (n : ℕ) (digest : String)
        → Step s (complete sha expired fits key id o n digest s).0
    committed :
        (expired : Bool) (key : String) (o : Owner) (leaves : Option (List Leaf))
        → Step s (commit sha expired key o leaves s).0
    started :
        (expired done : Bool) (key : String) (o : Owner) → Step s (start expired done key o s).0
    file_opened :
        (expired : Bool) (opens : Option Fault) (lease key : String) (o : Owner) (f : FileValue)
        → Step s (open_file sha expired opens lease key o f s).0
    request_aborted : (key : String) (o : Owner) → Step s (abort_request key o s).0
    request_released :
        (disk : Disk) (key : String) (o : Owner) → Step s (release_stopped disk key o s).0
    stage_aborted : (disk : Disk) (id : String) → Step s (abort_stage disk id s).0
    output_made :
        (valid : Bool) (key : String) (o : Owner) (l : Limits) (ttl : ℕ)
        → Step s (new_output valid key o l ttl s).0
    output_begun :
        (valid expired : Bool) (c : Creation) (name media id key : String)
        → lookup id s.stages ≡ none
        → Step s (begin_output valid expired c name media id key s).0
    output_finished :
        (done : Bool) (opens : Option Fault) (lease id : String) (claimed : Claims)
        → Step s (finish sha done opens lease id claimed s).0
    output_retained :
        (now : ℕ) (files : List (String × Claims)) (key : String)
        → Step s (retain sha now files key s).0
    output_opened :
        (now : ℕ) (expired : Bool) (opens : Option Fault) (lease : String) (o : Owner) (id : String)
        → Step s (open_output now expired opens lease o id s).0
    scratch_made :
        (valid expired : Bool) (c : Creation) (o : Owner) (name media id : String) (n : ℕ)
        → lookup id s.stages ≡ none
        → Step s (new_scratch valid expired c o name media id n s).0
    swept : (disk : Disk) (now : ℕ) (expired : String → Bool) → Step s (sweep disk now expired s).0
    revoked : (disk : Disk) (generation : String) → Step s (revoke_generation disk generation s).0
    save_failed :
        (key : String) (r : Reservation) (manifest : ℕ) (entries : List (ℕ × Option ℕ))
        → lookup key s.reservations ≡ some r
        → r.is_released ≡ false
        → Step s (settle_save key r manifest entries s)
    closed : (disk : Disk) → Step s (close disk s).0

  pub data Reachable (o : Options) : Store → Type 0 where
    fresh : Reachable o (new_store o)
    after : {s t : Store} → Reachable o s → Step s t → Reachable o t

  pub Step-IsValid : {s t : Store} → Step s t → IsValid s → IsValid t
  Step-IsValid {s} (reserved key n new) v = reserve-IsValid key n s v new
  Step-IsValid {s} (given_back key) v = release-IsValid key s v
  Step-IsValid {s} (wrote expired id p n failed) v = write-IsValid expired id p n failed s v
  Step-IsValid {s} (sealed fails id) v = seal-IsValid fails id s v
  Step-IsValid {s} (reader_closed disk key) v = close_reader-IsValid disk key s v
  Step-IsValid {s} (input_begun valid expired limit asked now key o c) v =
      begin_input-IsValid valid expired limit asked now key o c s v
  Step-IsValid {s} (file_begun expired late valid c pointer name media id key o new) v =
      new_file-IsValid expired late valid c pointer name media id key o s v new
  Step-IsValid {s} (file_completed expired fits key id o n digest) v =
      complete-IsValid sha expired fits key id o n digest s v
  Step-IsValid {s} (committed expired key o leaves) v = commit-IsValid sha expired key o leaves s v
  Step-IsValid {s} (started expired done key o) v = start-IsValid expired done key o s v
  Step-IsValid {s} (file_opened expired opens lease key o f) v =
      open_file-IsValid sha expired opens lease key o f s v
  Step-IsValid {s} (request_aborted key o) v = abort_request-IsValid key o s v
  Step-IsValid {s} (request_released disk key o) v = release_stopped-IsValid disk key o s v
  Step-IsValid {s} (stage_aborted disk id) v = abort_stage-IsValid disk id s v
  Step-IsValid {s} (output_made valid key o l ttl) v = new_output-IsValid valid key o l ttl s v
  Step-IsValid {s} (output_begun valid expired c name media id key new) v =
      begin_output-IsValid valid expired c name media id key s v new
  Step-IsValid {s} (output_finished done opens lease id claimed) v =
      finish-IsValid sha done opens lease id claimed s v
  Step-IsValid {s} (output_retained now files key) v = retain-IsValid sha now files key s v
  Step-IsValid {s} (output_opened now expired opens lease o id) v =
      open_output-IsValid now expired opens lease o id s v
  Step-IsValid {s} (scratch_made valid expired c o name media id n new) v =
      new_scratch-IsValid valid expired c o name media id n s v new
  Step-IsValid {s} (swept disk now expired) v = sweep-IsValid disk now expired s v
  Step-IsValid {s} (revoked disk generation) v = revoke_generation-IsValid disk generation s v
  Step-IsValid {s} (save_failed key r manifest entries e held) v =
      settle_save-IsValid key r manifest entries s v e held
  Step-IsValid {s} (closed disk) v = close-IsValid disk s v

  -- In every state that the operations of an artifact store reach, in any order and with saves that
  -- end well or whose cleanup fails, with any answers of the disk and fresh pointers for new stages
  -- and reservations, the bytes in use are exactly those of the listed stages, written and
  -- reserved, and of the reservations, and within the quota unless the store is poisoned; stages
  -- with reservations, readers and pending requests are within their limits; a stage that is no
  -- longer listed is retired and has no readers; and no request or output scope holds more bytes
  -- than its limit; every stage counts at least its open readers.
  pub store_stays-IsValid : (o : Options) (s : Store) → Reachable o s → IsValid s
  unfolding sum size
  store_stays-IsValid o s fresh = record {
    usage = refl;
    within_quota = inr (omega arith);
    few_objects = omega arith;
    few_readers = omega arith;
    few_pending = omega arith;
    stages_valid = tt;
    requests_valid = tt;
    scopes_valid = tt;
    readers_counted = λ id. omega arith;
  }
  store_stays-IsValid o s (after r step) = Step-IsValid step (store_stays-IsValid o _ r)

  open_reader-stage :
      (r : Reader) (found : Option Stage)
      → 1 ≤ readers_of found
      → ((st : Stage) → found ≡ some st → StageIsValid st)
      → (st : Stage) × ((found ≡ some st) × (st.listed ≡ true))
  open_reader-stage r none more valid = absurd (omega (arith, more))
  open_reader-stage r (some st) more valid = elim (Bool-cases st.listed) [
    | inl on ↦ (st, (refl, on))
    | inr off ↦ absurd (omega (arith, more, (valid st refl off).1))
  ]

  -- In every state that the operations of an artifact store reach, a reader that is not closed has
  -- a stage that the store still lists, so its file was not removed.
  pub reader_keeps_file :
      (o : Options) (s : Store) (key : String) (r : Reader)
      → Reachable o s
      → lookup key s.leases ≡ some r
      → r.is_closed ≡ false
      → (st : Stage) × ((lookup r.stage s.stages ≡ some st) × (st.listed ≡ true))
  reader_keeps_file o s key r reached e live =
      let v = store_stays-IsValid o s reached in
      open_reader-stage r (lookup r.stage s.stages)
        (ground (
          arith,
          live,
          eq_refl r.stage,
          v.readers_counted r.stage,
          sum-lookup-le (reads r.stage) key r s.leases e,
        ))
        (λ st h. All-lookup StageIsValid r.stage st s.stages v.stages_valid h)
