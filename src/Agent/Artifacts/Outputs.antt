-- ===== src/Agent/Artifacts/Outputs.antt =====
-- The operations on outputs and on scratch stages keep the usage.
use onprest.Prelude.{
  ℕ, ◌+◌, ◌-◌, ◌≤◌, ◌≡◌, refl, sym, subst, Bool, true, false, List, [], ◌∷◌, ◌++◌, Option, none,
  some, String, Bytes, arith, inl, inr, Option-cases,
}
use onprest.Prelude.Dict.{lookup, insert, All-lookup, All-insert, lookup-insert_self}
use onprest.Agent.Artifacts.{
  Fault, Owner, output, Stage, Limits, OutputScope, Store, objects, available,
}
use onprest.Agent.Artifacts.Stages.{
  Creation, put, new_file_stage, new_stage, created_stage, created, no_entropy, not_created,
  removed, left_behind,
}
use onprest.Agent.Artifacts.Input.{Claims}
use onprest.Agent.Artifacts.Output.{
  new_scope, new_output, scope_found, on_scope, begin_output, finish, retain_stages, retain,
  open_retained, open_output, new_scratch, scratch_made, scratch_reserved,
}
use onprest.Agent.Artifacts.Valid.{
  quota-Within, StageIsValid, ScopeIsValid, IsValid, put-IsValid, touch-IsValid,
  insert_stage-IsValid, scopes-IsValid, on_stage-IsValid, poison-IsValid,
}
use onprest.Agent.Artifacts.Quota.{new_stage-IsValid, open_locked-IsValid}
use onprest.Agent.Artifacts.Writes.{reserve_locked-cases}

put_scope-IsValid :
    (key : String) (v : OutputScope) (s : Store)
    → IsValid s
    → ScopeIsValid v
    → IsValid (record s { scopes = insert key v s.scopes })
put_scope-IsValid key v s ok fits =
    scopes-IsValid (insert key v s.scopes) s ok
      (All-insert ScopeIsValid key v s.scopes ok.scopes_valid fits)

-- An operation on a scope keeps the store valid, where it does so on a valid scope.
on_scope-IsValid :
    (key : String) (f : OutputScope → Store × Option Fault) (s : Store)
    → IsValid s
    → ((v : OutputScope) → ScopeIsValid v → IsValid (f v).0)
    → IsValid (on_scope key f s).0
on_scope-IsValid key f s ok each = found (lookup key s.scopes) refl
  where
    found : (o : Option OutputScope) → lookup key s.scopes ≡ o → IsValid (scope_found f s o).0
    found none e = ok
    found (some v) e = each v (All-lookup ScopeIsValid key v s.scopes ok.scopes_valid e)

pub new_output-IsValid :
    (valid_owner : Bool) (key : String) (o : Owner) (l : Limits) (ttl : ℕ) (s : Store)
    → IsValid s
    → IsValid (new_output valid_owner key o l ttl s).0
unfolding new_output
new_output-IsValid valid_owner key o l ttl s ok =
    ground (arith, ok, put_scope-IsValid key (new_scope o l ttl) s ok (omega arith))

pub begin_output-IsValid :
    (valid expired : Bool) (creation : Creation) (name media id key : String) (s : Store)
    → IsValid s
    → lookup id s.stages ≡ none
    → IsValid (begin_output valid expired creation name media id key s).0
unfolding begin_output
begin_output-IsValid valid expired creation name media id key s ok fresh =
    on_scope-IsValid key _ s ok (λ v fits.
      let st = record (new_file_stage v.owner output name media) { scope = some key } in
      let made = new_stage-IsValid valid expired creation id st s ok fresh refl refl in
      ground (
        arith,
        ok,
        made,
        put_scope-IsValid key (record v { stages = v.stages ++ id ∷ [] })
            (new_stage valid expired creation id st s).0 made fits,
      ))

readied-IsValid :
    (id : String) (st : Stage) (s : Store)
    → IsValid s
    → lookup id s.stages ≡ some st
    → IsValid (put id (record st { ready = true }) s)
readied-IsValid id st s ok e =
    touch-IsValid id st (record st { ready = true }) s ok e
      (All-lookup StageIsValid id st s.stages ok.stages_valid e) refl refl (omega arith)

pub finish-IsValid :
    (sha : Bytes → String) (done : Bool) (opens : Option Fault) (lease id : String)
    (claimed : Claims) (s : Store)
    → IsValid s
    → IsValid (finish sha done opens lease id claimed s).0
unfolding finish
finish-IsValid sha done opens lease id claimed s ok = on_stage-IsValid id _ s ok (λ st e. ground (
  arith,
  ok,
  open_locked-IsValid false opens lease id (put id (record st { ready = true }) s)
      (readied-IsValid id st s ok e),
))

retained-IsValid :
    (expiry : ℕ) (id : String) (s : Store) (o : Option Stage)
    → IsValid s
    → lookup id s.stages ≡ o
    → IsValid
        (elim o [ none ↦ s | some st ↦ put id (record st { retained = true; expires = expiry }) s ])
retained-IsValid expiry id s none ok e = ok
retained-IsValid expiry id s (some st) ok e =
    touch-IsValid id st (record st { retained = true; expires = expiry }) s ok e
      (All-lookup StageIsValid id st s.stages ok.stages_valid e) refl refl (omega arith)

retain_stages-IsValid :
    (expiry : ℕ) (ids : List String) (s : Store) → IsValid s → IsValid (retain_stages expiry ids s)
unfolding retain_stages
retain_stages-IsValid expiry [] s ok = ok
retain_stages-IsValid expiry (id ∷ ids) s ok =
    retain_stages-IsValid expiry ids _ (retained-IsValid expiry id s (lookup id s.stages) ok refl)

pub retain-IsValid :
    (sha : Bytes → String) (now : ℕ) (files : List (String × Claims)) (key : String) (s : Store)
    → IsValid s
    → IsValid (retain sha now files key s).0
unfolding retain
retain-IsValid sha now files key s ok = on_scope-IsValid key _ s ok (λ v fits. ground (
  arith,
  ok,
  put_scope-IsValid key (record v { published = true }) (retain_stages (now + v.ttl) v.stages s)
      (retain_stages-IsValid (now + v.ttl) v.stages s ok) fits,
))

pub open_output-IsValid :
    (now : ℕ) (expired : Bool) (opens : Option Fault) (lease : String) (o : Owner) (id : String)
    (s : Store)
    → IsValid s
    → IsValid (open_output now expired opens lease o id s).0
unfolding open_output open_retained
open_output-IsValid now expired opens lease o id s ok = elim (Option-cases (available s)) [
  | inr (e, refused) ↦ rw (refused, open_output) ok
  | inl free ↦
      rw (free, open_output)
        (on_stage-IsValid id (open_retained now expired opens lease o id s) s ok
          (λ st e. ground (arith, ok, open_locked-IsValid expired opens lease id s ok)))
]

given_back-IsValid :
    (bytes : ℕ) (s : Store) → IsValid s → IsValid (record s { used = s.used + bytes - bytes })
given_back-IsValid bytes s ok = subst (λ used. IsValid (record s { used = used })) (omega arith) ok

scratch_created-IsValid :
    (c : Creation) (id : String) (o : Owner) (name media : String) (bytes : ℕ) (s : Store)
    → IsValid s
    → lookup id s.stages ≡ none
    → s.used + bytes ≤ s.options.quota_bytes
    → objects s + 1 ≤ s.options.max_objects
    → let st = new_file_stage o output name media in
      IsValid
        (scratch_made id st bytes (created_stage c id st (record s { used = s.used + bytes }))).0
unfolding scratch_made created_stage
scratch_created-IsValid no_entropy id o name media bytes s ok fresh fits room =
    given_back-IsValid bytes s ok
scratch_created-IsValid not_created id o name media bytes s ok fresh fits room =
    given_back-IsValid bytes s ok
scratch_created-IsValid removed id o name media bytes s ok fresh fits room =
    given_back-IsValid bytes s ok
scratch_created-IsValid left_behind id o name media bytes s ok fresh fits room =
    poison-IsValid (record s { used = s.used + bytes - bytes }) (given_back-IsValid bytes s ok)
scratch_created-IsValid created id o name media bytes s ok fresh fits room =
    let st = new_file_stage o output name media in
    put-IsValid id st (record st { reserved = bytes }) (s.used + bytes) (put id st s)
      (insert_stage-IsValid id st s ok fresh (λ unlisted. cc) refl (omega (arith, room)))
      (lookup-insert_self id st s.stages) (λ unlisted. cc) (omega arith) (inr fits) (omega arith)
      (omega arith)

scratch_made-IsValid :
    (valid expired : Bool) (c : Creation) (id : String) (o : Owner) (name media : String)
    (bytes : ℕ) (s : Store)
    → IsValid s
    → lookup id s.stages ≡ none
    → s.used + bytes ≤ s.options.quota_bytes
    → let st = new_file_stage o output name media in
      IsValid
        (scratch_made id st bytes
          (new_stage valid expired c id st (record s { used = s.used + bytes }))).0
unfolding scratch_made new_stage
scratch_made-IsValid valid expired c id o name media bytes s ok fresh fits = ground (
  arith,
  given_back-IsValid bytes s ok,
  scratch_created-IsValid c id o name media bytes s ok fresh fits,
)

pub new_scratch-IsValid :
    (valid expired : Bool) (c : Creation) (o : Owner) (name media id : String) (bytes : ℕ)
    (s : Store)
    → IsValid s
    → lookup id s.stages ≡ none
    → IsValid (new_scratch valid expired c o name media id bytes s).0
unfolding new_scratch scratch_reserved
new_scratch-IsValid valid expired c o name media id bytes s ok fresh =
    let made = λ (r : Store × Option Fault).
      scratch_reserved valid expired c id (new_file_stage o output name media) bytes r in
    elim (reserve_locked-cases bytes s) [
      | inr (e, stop) ↦ subst (λ r. IsValid (made r).0) (sym stop) ok
      | inl (go, (room, clean)) ↦
          let within = quota-Within s.poisoned s.used s.options.quota_bytes clean ok.within_quota in
          subst (λ r. IsValid (made r).0) (sym go)
            (scratch_made-IsValid valid expired c id o name media bytes s ok fresh
              (omega (arith, room, within)))
    ]
