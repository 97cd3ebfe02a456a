-- ===== src/Agent/Artifacts/Refusals.antt =====
-- What a write answers, and what a caller can do to a request.
use text.Mathlib.TextEquality.{eq_iff}
use Prim.Native.Nat.{min}
use onprest.Prelude.{
  ℕ, ◌+◌, ◌-◌, ◌≡◌, ◌⊎◌, refl, sym, ap, subst, ◌∙◌, Bool, true, false, not, ◌||◌, List, ◌++◌,
  Option, none, some, String, Bytes, arith, inl, inr, ltb, ◌==◌, length, take, none≢some,
  if◌then◌else◌, Bool-cases, Option-cases,
}
use onprest.Prelude.Dict.{lookup, lookup-insert_self}
use onprest.Agent.Artifacts.{
  Fault, not_found, available, execution_failed, permission_denied, Phase, receiving, ready_to_run,
  executing, Owner, owner_eq, Stage, Request, Store,
}
use onprest.Agent.Artifacts.Stages.{
  Creation, write_refusal, wrote, write_reserved, write_checked, write, on_found,
}
use onprest.Agent.Artifacts.Cleanup.{Disk}
use onprest.Agent.Artifacts.Writes.{reserve_locked-cases}
use onprest.Agent.Artifacts.Input.{
  phase_eq, is_executing, check, request_found, on_request, new_file, new_file_checked, FileValue,
  Leaf,
}
use onprest.Agent.Artifacts.Requests.{
  complete, commit, open_file, start, abort_request, release_stopped,
}

-- The stage after a write: it has the first `m` bytes of `p` more, and its writes go on or have failed.
abbrev pub Appended : String → Stage → Bytes → ℕ → Bool → Store → Type 0
Appended id st p m failed s =
    (st' : Stage) × ((lookup id s.stages ≡ some st')
      × ((st'.content ≡ st.content ++ take m p) × (st'.write_failed ≡ failed)))

-- A write is refused and the store stays as it is; or all of it is in the stage, without an error; or a
-- part of it is, and the stage takes no more.
abbrev pub Answers : String → Stage → Bytes → Store → Store × Option Fault → Type 0
Answers id st p s r =
    ((e : Fault) × (r ≡ (s, some e)))
    ⊎ (((r.1 ≡ none) × Appended id st p (length p) false r.0)
        ⊎ ((r.1 ≡ some execution_failed) × ((m : ℕ) × Appended id st p m true r.0)))

wrote-Answers :
    (id : String) (st : Stage) (p : Bytes) (n : ℕ) (failed : Bool) (s t : Store)
    → Answers id st p s (wrote id st p n failed t)
unfolding wrote
wrote-Answers id st p n failed s t = elim (Bool-cases (failed || not (n == length p))) [
  | inl bad ↦
      rw (bad, wrote) (inr (inr (refl, (n, (_, (lookup-insert_self id _ t.stages, (refl, refl)))))))
  | inr good ↦
      rw (good, wrote)
        (inr (inl (refl, (_, (lookup-insert_self id _ t.stages, (rw (all_of good) refl, refl))))))
]
  where
    all_of : (failed || not (n == length p)) ≡ false → n ≡ length p
    all_of h = ground (arith, h)

write_reserved-Answers :
    (id : String) (st : Stage) (p : Bytes) (n : ℕ) (failed : Bool) (s t : Store)
    → Answers id st p s (write_reserved id st p n failed (t, none))
unfolding write_reserved
write_reserved-Answers id st p n failed s t = elim (Bool-cases (ltb (length p) n)) [
  | inl more ↦ rw (more, write_reserved) (wrote-Answers id st p 0 true s t)
  | inr fits ↦ rw (fits, write_reserved) (wrote-Answers id st p n failed s t)
]

write_checked-Answers :
    (id : String) (st : Stage) (p : Bytes) (n : ℕ) (failed : Bool) (s : Store)
    (refusal : Option Fault)
    → Answers id st p s (write_checked id st p n failed s refusal)
unfolding write_checked write_reserved
write_checked-Answers id st p n failed s (some e) = inl (e, refl)
write_checked-Answers id st p n failed s none =
    let more = length p - min (length p) st.reserved in
    elim (reserve_locked-cases more s) [
      | inr (e, stop) ↦
          subst (λ r. Answers id st p s (write_reserved id st p n failed r)) (sym stop)
            (inl (e, refl))
      | inl (go, room) ↦
          subst (λ r. Answers id st p s (write_reserved id st p n failed r)) (sym go)
            (write_reserved-Answers id st p n failed s (record s { used = s.used + more }))
    ]

-- A write to a stage, whatever the disk reports, leaves the store as it is with an error; or gives
-- no error, and the stage has all of the bytes more; or gives an execution error, and the stage has
-- some first bytes more and its write error set.
pub write-Answers :
    (expired : Bool) (id : String) (st : Stage) (p : Bytes) (n : ℕ) (failed : Bool) (s : Store)
    → lookup id s.stages ≡ some st
    → Answers id st p s (write expired id p n failed s)
unfolding write
write-Answers expired id st p n failed s e =
    subst
      (λ o. Answers id st p s (
        on_found (λ st. write_checked id st p n failed s (write_refusal expired id st (length p) s))
          s o))
      (sym e) (write_checked-Answers id st p n failed s (write_refusal expired id st (length p) s))

owner_eq-sym : (a b : Owner) → owner_eq a b ≡ owner_eq b a
unfolding owner_eq
owner_eq-sym a b = ground (
  arith,
  eq_iff a.request_id b.request_id,
  eq_iff b.request_id a.request_id,
  eq_iff a.caller_binding b.caller_binding,
  eq_iff b.caller_binding a.caller_binding,
  eq_iff a.capability b.capability,
  eq_iff b.capability a.capability,
  eq_iff a.definition_hash b.definition_hash,
  eq_iff b.definition_hash a.definition_hash,
  eq_iff a.auth_generation b.auth_generation,
  eq_iff b.auth_generation a.auth_generation,
)

-- The request at the key has this owner, and `ok`.
abbrev pub Authorised : String → Owner → Store → (Request → Type 0) → Type 0
Authorised key o s ok =
    (r : Request) × ((lookup key s.requests ≡ some r) × ((owner_eq r.owner o ≡ true) × ok r))

-- An operation that is not authorised answers an error and leaves the store as it is.
abbrev pub Guarded : String → Owner → Store → (Request → Type 0) → Store × Option Fault → Type 0
Guarded key o s ok answer = ((e : Fault) × (answer ≡ (s, some e))) ⊎ Authorised key o s ok

-- The request is in the phase, in time, and in a store that is open.
abbrev pub Admitted : Bool → Phase → Store → Request → Type 0
Admitted expired phase s r =
    (phase_eq r.phase phase ≡ true)
    × ((available s ≡ none) × ((is_executing phase ≡ true) ⊎ ((expired || r.canceled) ≡ false)))

-- Its owner alone is asked for.
abbrev pub Owned : Request → Type 0
Owned r = Unit

check-Admitted :
    (expired : Bool) (o : Owner) (phase : Phase) (r : Request) (s : Store)
    → check expired o phase r s ≡ none
    → (owner_eq r.owner o ≡ true) × Admitted expired phase s r
unfolding check
check-Admitted expired o phase r s h = elim (Bool-cases (owner_eq r.owner o)) [
  | inr other ↦ absurd (none≢some (sym (rw (other, check) at h)))
  | inl own ↦ elim (Option-cases (available s)) [
    | inr (e, refused) ↦ absurd (none≢some (sym (rw (own, refused, check) at h)))
    | inl here ↦ let passed = rw (own, here, check) at h in ground (arith, own, here, passed)
  ]
]

on_request-Guarded :
    (key : String) (o : Owner) (ok : Request → Type 0) (f : Request → Store × Option Fault)
    (s : Store)
    → ((r : Request) → lookup key s.requests ≡ some r → Guarded key o s ok (f r))
    → Guarded key o s ok (on_request key f s)
on_request-Guarded key o ok f s each = elim (Option-cases (lookup key s.requests)) [
  | inl missing ↦ inl (not_found, ap (request_found f s) missing)
  | inr (r, there) ↦
      subst (λ q. Guarded key o s ok (request_found f s q)) (sym there) (each r there)
]

-- An operation that begins with `check`.
checked-Guarded :
    (expired : Bool) (phase : Phase) (key : String) (o : Owner) (s : Store)
    (f : Request → Store × Option Fault)
    → ((r : Request) (e : Fault) → check expired o phase r s ≡ some e → f r ≡ (s, some e))
    → Guarded key o s (Admitted expired phase s) (on_request key f s)
checked-Guarded expired phase key o s f stops =
    on_request-Guarded key o (Admitted expired phase s) f s (λ r there.
      elim (Option-cases (check expired o phase r s)) [
        | inr (e, refused) ↦ inl (e, stops r e refused)
        | inl free ↦
            let (own, admitted) = check-Admitted expired o phase r s free in
            inr (r, (there, (own, admitted)))
      ])

-- An operation that asks for the owner alone.
by_owner-Guarded :
    (key : String) (o : Owner) (s : Store) (f : Request → Store × Option Fault)
    → Guarded key o s Owned (
        on_request key
          (λ r. if not (owner_eq o r.owner) then (s, some permission_denied) else f r)
          s)
by_owner-Guarded key o s f = on_request-Guarded key o Owned _ s (λ r there.
    elim (Bool-cases (owner_eq o r.owner)) [
      | inr other ↦ inl (permission_denied, rw other refl)
      | inl own ↦ inr (r, (there, (owner_eq-sym r.owner o ∙ own, tt)))
    ])

-- Each of the operations NewFile, Complete, Commit, Start, Open, Abort and ReleaseStopped of a
-- request answers an error and leaves the store as it is, or the request is there and is its
-- owner's; for all but the last two it is then also in the phase that the operation needs, before
-- the execution in time and not canceled, and the store is open and not poisoned.
pub requests-Guarded :
    (sha : Bytes → String) (key : String) (o : Owner) (s : Store) (expired late valid done : Bool)
    (c : Creation) (disk : Disk) (pointer name media id lease digest : String) (n : ℕ)
    (leaves : Option (List Leaf)) (opens : Option Fault) (f : FileValue)
    → let here = Guarded key o s in
      here
        (Admitted expired receiving s)
        (new_file expired late valid c pointer name media id key o s)
      × (here (Admitted expired receiving s) (complete sha expired valid key id o n digest s)
          × (here (Admitted expired receiving s) (commit sha expired key o leaves s)
              × (here (Admitted expired ready_to_run s) (start expired done key o s)
                  × (here
                        (Admitted expired executing s)
                        (open_file sha expired opens lease key o f s)
                      × (here Owned (abort_request key o s)
                          × here Owned (release_stopped disk key o s))))))
unfolding new_file new_file_checked complete commit start open_file abort_request release_stopped
requests-Guarded sha key o s expired late valid done c disk pointer name media id lease digest n
      leaves opens f =
    (
      checked-Guarded expired receiving key o s _ (λ r e refused. rw refused refl),
      (
        checked-Guarded expired receiving key o s _ (λ r e refused. rw refused refl),
        (
          checked-Guarded expired receiving key o s _ (λ r e refused. rw refused refl),
          (
            checked-Guarded expired ready_to_run key o s _ (λ r e refused. rw refused refl),
            (
              checked-Guarded expired executing key o s _ (λ r e refused. rw refused refl),
              (by_owner-Guarded key o s _, by_owner-Guarded key o s _),
            ),
          ),
        ),
      ),
    )
