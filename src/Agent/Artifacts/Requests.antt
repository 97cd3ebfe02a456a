-- ===== src/Agent/Artifacts/Requests.antt =====
-- How the requests of internal/agent/artifacts/input.go go on: `Complete`, `Commit`, `Start`, `Open`,
-- `Abort` and `ReleaseStopped`, and `Abort` of a stage, of store.go. `sha` stands for the digest.
use text.Mathlib.Text.{◌==◌ as str_eq}
use onprest.Prelude.{
  ℕ, Bool, true, false, not, ◌&&◌, ◌||◌, List, [], ◌∷◌, Option, none, some, String, Bytes, length,
  ◌==◌, if◌then◌else◌,
}
use onprest.Prelude.Dict.{Dict, lookup, insert, size}
use onprest.Agent.Artifacts.{
  Fault, validation_failed, permission_denied, execution_timeout, Owner, owner_eq, Kind, output,
  Stage, receiving, ready_to_run, executing, aborted, released, Request, Store, size_of,
}
use onprest.Agent.Artifacts.Stages.{put, on_stage, open_locked, is_released}
use onprest.Agent.Artifacts.Cleanup.{Disk, release_slot, cleanup, is_key}
use onprest.Agent.Artifacts.Input.{check, on_request, metadata, claims_eq, FileValue, Leaf}

abbrev pub put_request : String → Request → Store → Store
put_request key r s = record s { requests = insert key r s.requests }

abbrev pub is_output : Kind → Bool
is_output output = true
is_output _ = false

module _ (sha : Bytes → String) where
  -- The checks of `Complete` on the stage; `fits` tells that the leaf allows the file.
  unfoldable pub can_complete : Bool → String → Owner → ℕ → String → Stage → Bool
  can_complete fits key o size_bytes digest st =
      is_key key st.request
      && (owner_eq st.owner o
          && (not st.retired
              && (st.sealed
                  && (not st.ready
                      && (not st.write_failed
                          && (size_of st == size_bytes
                              && (str_eq (sha st.content) digest && fits)))))))

  -- `Complete`.
  unfoldable pub complete :
      Bool → Bool → String → String → Owner → ℕ → String → Store → Store × Option Fault
  complete expired fits key id o size_bytes digest s =
      on_request key
        (λ r. elim (check expired o receiving r s) [
          | some e ↦ (s, some e)
          | none ↦ elim (lookup id s.stages) [
            | none ↦ (s, some validation_failed)
            | some st ↦
                if can_complete fits key o size_bytes digest st
                then (put id (record st { ready = true }) s, none)
                else (s, some validation_failed)
          ]
        ])
        s

  -- What `Commit` asks of a leaf's stage.
  unfoldable pub leaf_matches : Owner → Leaf → String → Stage → Bool
  leaf_matches o leaf id st =
      st.ready
      && (not st.retired
          && (str_eq leaf.value.id id
              && (str_eq leaf.value.request_id o.request_id
                  && (str_eq leaf.value.pointer leaf.pointer
                      && claims_eq leaf.value.claims (metadata sha st)))))

  unfoldable pub contains : String → List String → Bool
  contains id [] = false
  contains id (x ∷ xs) = str_eq x id || contains id xs

  -- The loop of `Commit`; `seen` has the stages of the leaves before.
  unfoldable pub leaves_match : Owner → Dict String → Dict Stage → List String → List Leaf → Bool
  leaves_match o files stages seen [] = true
  leaves_match o files stages seen (leaf ∷ leaves) = elim (lookup leaf.pointer files) [
    | none ↦ false
    | some id ↦ elim (lookup id stages) [
      | none ↦ false
      | some st ↦
          not (contains id seen)
          && (leaf_matches o leaf id st && leaves_match o files stages (id ∷ seen) leaves)
    ]
  ]

  -- `Commit`, of the leaves that `ValidateInput` finds in the parameters, if they are valid.
  unfoldable pub commit : Bool → String → Owner → Option (List Leaf) → Store → Store × Option Fault
  commit expired key o leaves s =
      on_request key
        (λ r. elim (check expired o receiving r s) [
          | some e ↦ (s, some e)
          | none ↦ elim leaves [
            | none ↦ (s, some validation_failed)
            | some ls ↦
                if not (length ls == size r.files) || not (leaves_match o r.files s.stages [] ls)
                then (s, some validation_failed)
                else (put_request key (record r { phase = ready_to_run }) s, none)
          ]
        ])
        s

  -- `Open` of a file once its stage is found.
  unfoldable pub open_claimed :
      Bool → Option Fault → String → String → FileValue → Store → Stage → Store × Option Fault
  open_claimed expired opens lease id v s st =
      if not (claims_eq v.claims (metadata sha st))
      then (s, some validation_failed)
      else open_locked expired opens lease id s

  -- `Open` of a file, with the key of its reader.
  unfoldable pub open_file :
      Bool → Option Fault → String → String → Owner → FileValue → Store → Store × Option Fault
  open_file expired opens lease key o v s =
      on_request key
        (λ r. elim (check expired o executing r s) [
          | some e ↦ (s, some e)
          | none ↦ elim (lookup v.pointer r.files) [
            | none ↦ (s, some permission_denied)
            | some id ↦
                if not (str_eq id v.id) || not (str_eq v.request_id o.request_id)
                then (s, some permission_denied)
                else on_stage id (open_claimed (expired || r.stopped) opens lease id v s) s
          ]
        ])
        s

-- `Start`; `expired` is that of the request, `done` that of the execution.
unfoldable pub start : Bool → Bool → String → Owner → Store → Store × Option Fault
start expired done key o s =
    on_request key
      (λ r. elim (check expired o ready_to_run r s) [
        | some e ↦ (s, some e)
        | none ↦ if done then (s, some execution_timeout) else (
          put_request key (record r { phase = executing; started = true; canceled = true }) s,
          none,
        )
      ])
      s

-- `abortLocked`.
unfoldable pub abort_locked : Request → Request
abort_locked r =
    if is_released r.phase then r else record r { canceled = true; stopped = true; phase = aborted }

-- `Abort` of a request.
unfoldable pub abort_request : String → Owner → Store → Store × Option Fault
abort_request key o s =
    on_request key
      (λ r.
        if not (owner_eq o r.owner)
        then (s, some permission_denied)
        else (put_request key (abort_locked r) s, none))
      s

-- The first of two errors, for `join`.
abbrev pub first_error : Option Fault → Option Fault → Option Fault
first_error none e = e
first_error (some e) e' = some e

abbrev pub retire_stage : String → Store → Store
retire_stage id s = elim (lookup id s.stages) [
  | none ↦ s
  | some st ↦ put id (record st { retired = true }) s
]

-- The loop of `releaseStoppedLocked` and of `Sweep` over a request's files.
unfoldable pub retire_all : Disk → Dict String → Store → Store × Option Fault
retire_all disk [] s = (s, none)
retire_all disk ((pointer, id) ∷ files) s =
    let (t, e) = cleanup disk id (retire_stage id s) in
    let (u, e') = retire_all disk files t in (u, first_error e e')

-- `releaseStoppedLocked`.
unfoldable pub release_stopped_locked : Disk → String → Request → Store → Store × Option Fault
release_stopped_locked disk key r s =
    let (t, e) =
      retire_all disk r.files
        (put_request key (record r { canceled = true; stopped = true; phase = released }) s) in
    (release_slot (some key) t, e)

-- `ReleaseStopped`.
unfoldable pub release_stopped : Disk → String → Owner → Store → Store × Option Fault
release_stopped disk key o s =
    on_request key
      (λ r.
        if not (owner_eq o r.owner)
        then (s, some permission_denied)
        else release_stopped_locked disk key r s)
      s

-- `Abort` of a stage: with a request, of the whole request.
unfoldable pub abort_stage : Disk → String → Store → Store × Option Fault
abort_stage disk id s =
    on_stage id
      (λ st. elim st.request [
        | none ↦
            if st.retained
            then (s, none)
            else cleanup disk id (put id (record st { retired = true }) s)
        | some key ↦
            on_request key
              (λ r.
                let s' = put_request key (abort_locked r) s in
                if r.started && not (is_released r.phase)
                then (s', none)
                else release_stopped_locked disk key (abort_locked r) s')
              s
      ])
      s
