-- ===== src/Agent/Artifacts/Quota.antt =====
-- Every operation of the store and of its stages keeps the usage.
use onprest.Prelude.{
  ℕ, ◌+◌, ◌-◌, ◌≤◌, ◌≡◌, refl, Bool, true, false, ◌||◌, Option, none, some, String, arith, inl, inr,
  leb, ltb, Bool-cases, Option-cases,
}
use onprest.Prelude.Dict.{
  lookup, insert, remove, sum-insert_new, sum-insert_old, sum-lookup-le, size-remove-le, All-lookup,
}
use onprest.Agent.Artifacts.{
  Fault, Stage, Store, charge, leased, counted_lease, objects, size_of, reserve_locked, reserve,
  release,
}
use onprest.Agent.Artifacts.Stages.{
  Creation, no_entropy, not_created, created, removed, left_behind, put, created_stage, new_stage,
  open_locked, seal,
}
use onprest.Agent.Artifacts.Cleanup.{Disk, release_slot, cleanup}
use onprest.Agent.Artifacts.Valid.{
  on_stage-IsValid, StageIsValid, IsValid, less-Within, poison-IsValid, charge-le, put-IsValid,
  touch-IsValid, insert_stage-IsValid, pending-IsValid, leases-IsValid, readers-IsValid,
}
use onprest.Agent.Artifacts.Leases.{opened-AreCounted}

pub reserve-IsValid :
    (key : String) (n : ℕ) (s : Store)
    → IsValid s
    → lookup key s.reservations ≡ none
    → IsValid (reserve key n s).0
unfolding reserve reserve_locked
reserve-IsValid key n s v fresh = ground (
  arith,
  v,
  sum-insert_new leased key (record { bytes = n; is_released = false }) s.reservations fresh,
  sum-insert_new counted_lease key (record { bytes = n; is_released = false }) s.reservations fresh,
)

pub release-IsValid : (key : String) (s : Store) → IsValid s → IsValid (release key s)
unfolding release
release-IsValid key s v = elim (Option-cases (lookup key s.reservations)) [
  | inl gone ↦ rw (gone, release) v
  | inr (r, e) ↦ elim (Bool-cases r.is_released) [
    | inl done ↦ rw (e, release, done) v
    | inr held ↦
        rw (e, release, held)
          (record {
            usage = ground (
              arith,
              v.usage,
              held,
              sum-lookup-le leased key r s.reservations e,
              sum-insert_old leased key (record r { is_released = true }) r s.reservations e,
            );
            within_quota =
                less-Within s.poisoned s.used (s.used - r.bytes) s.options.quota_bytes (omega arith)
                  v.within_quota;
            few_objects = ground (
              arith,
              v.few_objects,
              held,
              sum-insert_old counted_lease key (record r { is_released = true }) r s.reservations e,
            );
            few_readers = v.few_readers;
            few_pending = v.few_pending;
            stages_valid = v.stages_valid;
            requests_valid = v.requests_valid;
            scopes_valid = v.scopes_valid;
            readers_counted = v.readers_counted;
          })
  ]
]

created_stage-IsValid :
    (c : Creation) (id : String) (st : Stage) (s : Store)
    → IsValid s
    → lookup id s.stages ≡ none
    → charge st ≡ 0
    → st.listed ≡ true
    → objects s + 1 ≤ s.options.max_objects
    → IsValid (created_stage c id st s).0
unfolding created_stage
created_stage-IsValid no_entropy id st s v e z l room = v
created_stage-IsValid not_created id st s v e z l room = v
created_stage-IsValid created id st s v e z l room =
    insert_stage-IsValid id st s v e (λ unlisted. cc) z (ground (arith, l, room))
created_stage-IsValid removed id st s v e z l room = v
created_stage-IsValid left_behind id st s v e z l room = poison-IsValid s v

pub new_stage-IsValid :
    (valid expired : Bool) (c : Creation) (id : String) (st : Stage) (s : Store)
    → IsValid s
    → lookup id s.stages ≡ none
    → charge st ≡ 0
    → st.listed ≡ true
    → IsValid (new_stage valid expired c id st s).0
unfolding new_stage
new_stage-IsValid valid expired c id st s v e z l =
    ground (arith, v, created_stage-IsValid c id st s v e z l)

pub release_slot-IsValid : (k : Option String) (s : Store) → IsValid s → IsValid (release_slot k s)
unfolding release_slot
release_slot-IsValid none s v = v
release_slot-IsValid (some k) s v = elim (Option-cases (lookup k s.requests)) [
  | inl gone ↦ rw (gone, release_slot) v
  | inr (r, e) ↦
      rw (e, release_slot)
        (ground (
          arith,
          v,
          pending-IsValid (remove r.owner.request_id s.pending) s v
              (omega (arith, v.few_pending, size-remove-le r.owner.request_id s.pending)),
        ))
]

close_file-IsValid :
    (id : String) (st : Stage) (s : Store)
    → IsValid s
    → lookup id s.stages ≡ some st
    → IsValid (put id (record st { is_open = false }) s)
close_file-IsValid id st s v e =
    touch-IsValid id st (record st { is_open = false }) s v e
      (All-lookup StageIsValid id st s.stages v.stages_valid e) refl refl (omega arith)

remove_file-IsValid :
    (id : String) (st : Stage) (s : Store)
    → IsValid s
    → lookup id s.stages ≡ some st
    → st.retired ≡ true
    → st.listed ≡ true
    → ltb 0 st.readers ≡ false
    → IsValid (record s {
      used = s.used - (size_of st + st.reserved);
      stages = insert id (record st { is_open = false; reserved = 0; listed = false }) s.stages;
    })
remove_file-IsValid id st s v e retired listed unread =
    put-IsValid id st (record st { is_open = false; reserved = 0; listed = false })
      (s.used - (size_of st + st.reserved)) s v e (λ unlisted. (retired, ground (arith, unread)))
      (ground (arith, v.usage, charge-le id st s e, listed))
      (less-Within s.poisoned s.used (s.used - (size_of st + st.reserved)) s.options.quota_bytes
        (omega arith) v.within_quota)
      (omega arith) (omega arith)

opened-IsValid :
    (key id : String) (st : Stage) (s : Store)
    → IsValid s
    → lookup id s.stages ≡ some st
    → st.retired ≡ false
    → s.readers + 1 ≤ s.options.max_objects
    → IsValid (record s {
      readers = s.readers + 1;
      stages = insert id (record st { readers = st.readers + 1 }) s.stages;
      leases = insert key (record { stage = id; canceled = false; is_closed = false }) s.leases;
    })
opened-IsValid key id st s v e live room =
    let st' = record st { readers = st.readers + 1 } in
    let ok = All-lookup StageIsValid id st s.stages v.stages_valid e in
    let touched =
      touch-IsValid id st st' s v e (λ unlisted. ground (arith, (ok unlisted).0, live)) refl refl
        (omega arith) in
    leases-IsValid
      (insert key (record { stage = id; canceled = false; is_closed = false }) s.leases)
      (record s { readers = s.readers + 1; stages = insert id st' s.stages })
      (readers-IsValid (s.readers + 1) (put id st' s) touched room)
      (opened-AreCounted key id st s.leases s.stages v.readers_counted e)

pub cleanup-IsValid :
    (disk : Disk) (id : String) (s : Store) → IsValid s → IsValid (cleanup disk id s).0
unfolding cleanup
cleanup-IsValid disk id s v = on_stage-IsValid id _ s v (λ st e. ground (
  arith,
  v,
  poison-IsValid s v,
  close_file-IsValid id st s v e,
  poison-IsValid (put id (record st { is_open = false }) s) (close_file-IsValid id st s v e),
  λ (r : st.retired ≡ true) (l : st.listed ≡ true) (u : ltb 0 st.readers ≡ false).
      release_slot-IsValid st.request
        (record s {
          used = s.used - (size_of st + st.reserved);
          stages = insert id (record st { is_open = false; reserved = 0; listed = false }) s.stages;
        })
        (remove_file-IsValid id st s v e r l u),
))

pub seal-IsValid :
    (fails : Bool) (id : String) (s : Store) → IsValid s → IsValid (seal fails id s).0
unfolding seal
seal-IsValid fails id s v = on_stage-IsValid id _ s v (λ st e.
    let st' = record st {
      sealed = true;
      reserved = 0;
      is_open = false;
      write_failed = st.write_failed || fails;
    } in
    let ok = All-lookup StageIsValid id st s.stages v.stages_valid e in
    ground (
      arith,
      v,
      λ (r : st.retired ≡ false).
          put-IsValid id st st' (s.used - st.reserved) s v e ok
            (ground (arith, v.usage, charge-le id st s e, ok, r))
            (less-Within s.poisoned s.used (s.used - st.reserved) s.options.quota_bytes
              (omega arith) v.within_quota)
            (omega arith) (omega arith),
    ))

pub open_locked-IsValid :
    (expired : Bool) (opens : Option Fault) (key id : String) (s : Store)
    → IsValid s
    → IsValid (open_locked expired opens key id s).0
unfolding open_locked
open_locked-IsValid expired opens key id s v = on_stage-IsValid id _ s v (λ st e. ground (
  arith,
  v,
  λ (live : st.retired ≡ false) (room : leb s.options.max_objects s.readers ≡ false).
      opened-IsValid key id st s v e live (ground (arith, room)),
))
