-- ===== src/Agent/Artifacts/Output.antt =====
-- The outputs of internal/agent/artifacts/output.go, `Finish` and `Close` of store.go, and the scratch
-- stages of scratch.go.
use text.Mathlib.Text.{◌==◌ as str_eq}
use onprest.Prelude.{
  ℕ, ◌+◌, ◌-◌, Bool, true, false, not, ◌&&◌, ◌||◌, List, [], ◌∷◌, ◌++◌, Option, none, some, String,
  Bytes, length, leb, ltb, if◌then◌else◌,
}
use onprest.Prelude.Dict.{lookup, insert}
use onprest.Agent.Artifacts.{
  Fault, not_found, validation_failed, limit_exceeded, conflict, output_invalid, Owner, owner_eq,
  output, Stage, Limits, OutputScope, Reader, Store, available, reserve_locked,
}
use onprest.Agent.Artifacts.Stages.{Creation, put, new_file_stage, new_stage, on_stage, open_locked}
use onprest.Agent.Artifacts.Input.{is_some, Claims, metadata, claims_eq}
use onprest.Agent.Artifacts.Requests.{is_output}

abbrev pub new_scope : Owner → Limits → ℕ → OutputScope
new_scope o l ttl = record {
  owner = o;
  limits = l;
  ttl = ttl;
  stages = [];
  bytes = 0;
  published = false;
}

-- `Output`, with the key of the scope.
unfoldable pub new_output : Bool → String → Owner → Limits → ℕ → Store → Store × Option Fault
new_output valid_owner key o l ttl s = elim (available s) [
  | some e ↦ (s, some e)
  | none ↦
      if not valid_owner
        || (ltb l.max_file_bytes 1
            || (ltb l.max_total_bytes l.max_file_bytes || (ltb l.max_files 1 || leb ttl 0)))
      then (s, some validation_failed)
      else (record s { scopes = insert key (new_scope o l ttl) s.scopes }, none)
]

abbrev pub scope_found :
    (OutputScope → Store × Option Fault) → Store → Option OutputScope → Store × Option Fault
scope_found f s none = (s, some not_found)
scope_found f s (some v) = f v

abbrev pub on_scope : String → (OutputScope → Store × Option Fault) → Store → Store × Option Fault
on_scope key f s = scope_found f s (lookup key s.scopes)

-- `Begin`, with the key of the stage.
unfoldable pub begin_output :
    Bool → Bool → Creation → String → String → String → String → Store → Store × Option Fault
begin_output valid expired creation name media id key s =
    on_scope key
      (λ v.
        if v.published
        then (s, some conflict)
        else if leb v.limits.max_files (length v.stages)
        then (s, some limit_exceeded)
        else let st = record (new_file_stage v.owner output name media) { scope = some key } in
          let (t, refused) = new_stage valid expired creation id st s in
          if is_some refused then (t, refused) else (
            record t { scopes = insert key (record v { stages = v.stages ++ id ∷ [] }) t.scopes },
            none,
          ))
      s

-- The loop of `Retain` that keeps the stages until `expiry`.
unfoldable pub retain_stages : ℕ → List String → Store → Store
retain_stages expiry [] s = s
retain_stages expiry (id ∷ ids) s = retain_stages expiry ids (elim (lookup id s.stages) [
  | none ↦ s
  | some st ↦ put id (record st { retained = true; expires = expiry }) s
])

module _ (sha : Bytes → String) where
  -- `Finish`, with the key of its reader; `done` is the error of the stage's context.
  unfoldable pub finish :
      Bool → Option Fault → String → String → Claims → Store → Store × Option Fault
  finish done opens lease id claimed s =
      on_stage id
        (λ st.
          if not (is_output st.kind)
            || (not st.sealed || (st.ready || (st.retired || (st.write_failed || done))))
          then (s, some output_invalid)
          else if not (claims_eq claimed (metadata sha st))
          then (s, some output_invalid)
          else open_locked false opens lease id (put id (record st { ready = true }) s))
        s

  -- One file of `Retain`: its reader is of the stage, and its claims are the stage's.
  unfoldable pub retainable : String × Claims → String → Stage → Option Reader → Bool
  retainable file id st none = false
  retainable file id st (some r) =
      str_eq r.stage id
      && (not r.is_closed && (st.ready && (not st.retired && claims_eq file.1 (metadata sha st))))

  unfoldable pub all_retainable : List (String × Claims) → List String → Store → Bool
  all_retainable [] [] s = true
  all_retainable (file ∷ files) (id ∷ ids) s = elim (lookup id s.stages) [
    | none ↦ false
    | some st ↦ retainable file id st (lookup file.0 s.leases) && all_retainable files ids s
  ]
  all_retainable _ _ s = false

  -- `Retain`; a file is the key of its reader and its claims.
  unfoldable pub retain : ℕ → List (String × Claims) → String → Store → Store × Option Fault
  retain now files key s =
      on_scope key
        (λ v. elim (available s) [
          | some e ↦ (s, some e)
          | none ↦
              if v.published || not (all_retainable files v.stages s)
              then (s, some output_invalid)
              else (
                let t = retain_stages (now + v.ttl) v.stages s in
                    record t { scopes = insert key (record v { published = true }) t.scopes },
                none,
              )
        ])
        s

-- `OpenOutput` once the store is available and has the stage.
unfoldable pub open_retained :
    ℕ → Bool → Option Fault → String → Owner → String → Store → Stage → Store × Option Fault
open_retained now expired opens lease o id s st =
    if not st.listed
      || (not (is_output st.kind)
          || (not st.retained || (not (owner_eq st.owner o) || leb st.expires now)))
    then (s, some not_found)
    else open_locked expired opens lease id s

-- `OpenOutput` at the time `now`.
unfoldable pub open_output :
    ℕ → Bool → Option Fault → String → Owner → String → Store → Store × Option Fault
open_output now expired opens lease o id s = elim (available s) [
  | some e ↦ (s, some e)
  | none ↦ on_stage id (open_retained now expired opens lease o id s) s
]

-- The end of `NewScratch`, which gives the bytes back where no stage was created.
unfoldable pub scratch_made : String → Stage → ℕ → Store × Option Fault → Store × Option Fault
scratch_made id st bytes (s, some e) = (record s { used = s.used - bytes }, some e)
scratch_made id st bytes (s, none) = (put id (record st { reserved = bytes }) s, none)

unfoldable pub scratch_reserved :
    Bool → Bool → Creation → String → Stage → ℕ → Store × Option Fault → Store × Option Fault
scratch_reserved valid expired creation id st bytes (s, some e) = (s, some e)
scratch_reserved valid expired creation id st bytes (s, none) =
    scratch_made id st bytes (new_stage valid expired creation id st s)

-- `NewScratch`, of a number of bytes that is not negative; `scratch` is the owner of all of them.
unfoldable pub new_scratch :
    Bool → Bool → Creation → Owner → String → String → String → ℕ → Store → Store × Option Fault
new_scratch valid expired creation scratch name media id bytes s =
    scratch_reserved valid expired creation id (new_file_stage scratch output name media) bytes
      (reserve_locked bytes s)
