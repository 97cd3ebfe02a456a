-- ===== src/Agent/Artifacts/Writes.antt =====
-- A write, and the closing of a reader, keep the usage.
use Prim.Native.Nat.{min}
use onprest.Prelude.{
  sym, subst, ◌⊎◌, ℕ, ◌+◌, ◌-◌, ◌≤◌, ◌≡◌, refl, Bool, true, false, not, ◌||◌, ◌++◌, Option, none,
  some, String, Bytes, arith, inl, inr, length, ltb, ◌==◌, Bool-cases, Option-cases, take,
  length-take, length-append,
}
use onprest.Prelude.Dict.{Dict, lookup, insert, All, All-lookup, All-insert}
use onprest.Agent.Artifacts.{
  Fault, limit_exceeded, Stage, Request, OutputScope, Reader, Store, available, reserve_locked,
}
use onprest.Agent.Artifacts.Stages.{
  request_takes, scope_takes, find, write_refusal, add_request_bytes, add_scope_bytes, wrote, write,
  write_checked, write_reserved,
}
use onprest.Agent.Artifacts.Cleanup.{Disk, close_reader, close_open, close_found}
use onprest.Agent.Artifacts.Valid.{
  quota-Within, StageIsValid, RequestIsValid, ScopeIsValid, IsValid, poison-IsValid, charge-le,
  put-IsValid, requests-IsValid, scopes-IsValid, leases-IsValid, closed_reader-IsValid,
  on_stage-IsValid,
}
use onprest.Agent.Artifacts.Leases.{canceled-AreCounted}
use onprest.Agent.Artifacts.Quota.{cleanup-IsValid}

request_room :
    (id : String) (st : Stage) (m n : ℕ) (r : Request)
    → request_takes id st m (some r) ≡ true
    → n ≤ m
    → RequestIsValid (record r { bytes = r.bytes + n })
unfolding request_takes
request_room id st m n r takes le = ground (arith, takes, le)

scope_room :
    (st : Stage) (m n : ℕ) (v : OutputScope)
    → scope_takes st m (some v) ≡ true
    → n ≤ m
    → ScopeIsValid (record v { bytes = v.bytes + n })
unfolding scope_takes
scope_room st m n v takes le = ground (arith, takes, le)

add_request_bytes-IsValid :
    (id : String) (st : Stage) (m n : ℕ) (k : Option String) (d : Dict Request)
    → All RequestIsValid d
    → request_takes id st m (find k d) ≡ true
    → n ≤ m
    → All RequestIsValid (add_request_bytes k n d)
unfolding add_request_bytes find
add_request_bytes-IsValid id st m n none d h takes le = h
add_request_bytes-IsValid id st m n (some k) d h takes le = found (lookup k d) refl takes
  where
    found :
        (o : Option Request)
        → lookup k d ≡ o
        → request_takes id st m o ≡ true
        → All RequestIsValid
            (elim o [ none ↦ d | some r ↦ insert k (record r { bytes = r.bytes + n }) d ])
    found none e t = h
    found (some r) e t =
        All-insert RequestIsValid k (record r { bytes = r.bytes + n }) d h
          (request_room id st m n r t le)

add_scope_bytes-IsValid :
    (st : Stage) (m n : ℕ) (k : Option String) (d : Dict OutputScope)
    → All ScopeIsValid d
    → scope_takes st m (find k d) ≡ true
    → n ≤ m
    → All ScopeIsValid (add_scope_bytes k n d)
unfolding add_scope_bytes find
add_scope_bytes-IsValid st m n none d h takes le = h
add_scope_bytes-IsValid st m n (some k) d h takes le = found (lookup k d) refl takes
  where
    found :
        (o : Option OutputScope)
        → lookup k d ≡ o
        → scope_takes st m o ≡ true
        → All ScopeIsValid
            (elim o [ none ↦ d | some v ↦ insert k (record v { bytes = v.bytes + n }) d ])
    found none e t = h
    found (some v) e t =
        All-insert ScopeIsValid k (record v { bytes = v.bytes + n }) d h (scope_room st m n v t le)

-- A stage that is written to is listed, and what the disk did not take is given back.
wrote_stage-IsValid :
    (id : String) (st : Stage) (p : Bytes) (n : ℕ) (bad : Bool) (s : Store)
    → IsValid s
    → lookup id s.stages ≡ some st
    → st.retired ≡ false
    → n ≤ length p
    → s.used + (length p - min (length p) st.reserved) ≤ s.options.quota_bytes
    → IsValid (record s {
      used = s.used + (length p - min (length p) st.reserved) - (length p - n);
      stages =
          insert id
            (record st {
              reserved = st.reserved - min (length p) st.reserved;
              content = st.content ++ take n p;
              write_failed = bad;
            })
            s.stages;
    })
wrote_stage-IsValid id st p n bad s v e live le room =
    let st' = record st {
      reserved = st.reserved - min (length p) st.reserved;
      content = st.content ++ take n p;
      write_failed = bad;
    } in
    let ok = All-lookup StageIsValid id st s.stages v.stages_valid e in
    put-IsValid id st st' (s.used + (length p - min (length p) st.reserved) - (length p - n)) s v e
      ok
      (ground (
        arith,
        v.usage,
        charge-le id st s e,
        ok,
        live,
        le,
        length-append st.content (take n p),
        length-take n p,
      ))
      (inr (omega (arith, room))) (omega arith) (omega arith)

wrote-IsValid :
    (id : String) (st : Stage) (p : Bytes) (n : ℕ) (failed : Bool) (s : Store)
    → IsValid s
    → lookup id s.stages ≡ some st
    → st.retired ≡ false
    → n ≤ length p
    → request_takes id st (length p) (find st.request s.requests) ≡ true
    → scope_takes st (length p) (find st.scope s.scopes) ≡ true
    → s.used + (length p - min (length p) st.reserved) ≤ s.options.quota_bytes
    → IsValid
        (wrote id st p n failed
          (record s { used = s.used + (length p - min (length p) st.reserved) })).0
unfolding wrote
wrote-IsValid id st p n failed s v e live le requested scoped room =
    let written =
      wrote_stage-IsValid id st p n (failed || not (n == length p)) s v e live le room in
    let in_request = requests-IsValid (add_request_bytes st.request n s.requests) _ written (
      add_request_bytes-IsValid id st (length p) n st.request s.requests v.requests_valid requested
        le) in
    scopes-IsValid (add_scope_bytes st.scope n s.scopes) _ in_request
      (add_scope_bytes-IsValid st (length p) n st.scope s.scopes v.scopes_valid scoped le)

-- What a write that no guard refuses may rely on.
pub accepted :
    (expired : Bool) (id : String) (st : Stage) (n : ℕ) (s : Store)
    → write_refusal expired id st n s ≡ none
    → (st.retired ≡ false)
      × ((request_takes id st n (find st.request s.requests) ≡ true)
          × (scope_takes st n (find st.scope s.scopes) ≡ true))
unfolding write_refusal
accepted expired id st n s h = ground (arith, h)

-- The quota is reserved, or the store stays as it is.
pub reserve_locked-cases :
    (n : ℕ) (s : Store)
    → ((reserve_locked n s ≡ (record s { used = s.used + n }, none))
        × ((n ≤ s.options.quota_bytes - s.used) × (s.poisoned ≡ false)))
      ⊎ ((e : Fault) × (reserve_locked n s ≡ (s, some e)))
unfolding reserve_locked available
reserve_locked-cases n s = elim (Option-cases (available s)) [
  | inr (e, refused) ↦ inr (e, rw (refused, reserve_locked) refl)
  | inl free ↦ elim (Bool-cases (ltb (s.options.quota_bytes - s.used) n)) [
    | inl over ↦ inr (limit_exceeded, rw (free, over, reserve_locked) refl)
    | inr under ↦
        inl (rw (free, under, reserve_locked) refl, (ground (arith, under), ground (arith, free)))
  ]
]

write_checked-IsValid :
    (id : String) (st : Stage) (p : Bytes) (n : ℕ) (failed : Bool) (s : Store)
    (refusal : Option Fault)
    → IsValid s
    → lookup id s.stages ≡ some st
    → (refusal ≡ none
        → (st.retired ≡ false)
          × ((request_takes id st (length p) (find st.request s.requests) ≡ true)
              × (scope_takes st (length p) (find st.scope s.scopes) ≡ true)))
    → IsValid (write_checked id st p n failed s refusal).0
unfolding write_checked write_reserved
write_checked-IsValid id st p n failed s (some e) v at_id fine = v
write_checked-IsValid id st p n failed s none v at_id fine =
    let (live, (requested, scoped)) = fine refl in
    elim (reserve_locked-cases (length p - min (length p) st.reserved) s) [
      | inr (e, stop) ↦ subst (λ r. IsValid (write_reserved id st p n failed r).0) (sym stop) v
      | inl (go, (room, clean)) ↦
          let within = quota-Within s.poisoned s.used s.options.quota_bytes clean v.within_quota in
          subst (λ r. IsValid (write_reserved id st p n failed r).0) (sym go)
            (elim (Bool-cases (ltb (length p) n)) [
              | inl more ↦ rw more (
                  wrote-IsValid id st p 0 true s v at_id live (omega arith) requested scoped
                    (omega (arith, room, within)))
              | inr fits ↦ rw fits (
                  wrote-IsValid id st p n failed s v at_id live (ground (arith, fits)) requested
                    scoped (omega (arith, room, within)))
            ])
    ]

pub write-IsValid :
    (expired : Bool) (id : String) (p : Bytes) (n : ℕ) (failed : Bool) (s : Store)
    → IsValid s
    → IsValid (write expired id p n failed s).0
unfolding write
write-IsValid expired id p n failed s v = on_stage-IsValid id _ s v (λ st e.
    write_checked-IsValid id st p n failed s (write_refusal expired id st (length p) s) v e
      (accepted expired id st (length p) s))

close_open-IsValid :
    (disk : Disk) (key : String) (r : Reader) (s : Store)
    → IsValid s
    → lookup key s.leases ≡ some r
    → r.is_closed ≡ false
    → IsValid (close_open disk key r s).0
unfolding close_open
close_open-IsValid disk key r s v h held = elim (Bool-cases (disk.closes_reader key)) [
  | inr stuck ↦ rw stuck (
      poison-IsValid (record s { leases = insert key (record r { canceled = true }) s.leases })
        (leases-IsValid (insert key (record r { canceled = true }) s.leases) s v
          (canceled-AreCounted key r s.leases s.stages v.readers_counted h)))
  | inl closes ↦ rw closes (
      on_stage-IsValid r.stage _ s v
        (λ st e. cleanup-IsValid disk r.stage _ (closed_reader-IsValid key r st s v e h held)))
]

close_found-IsValid :
    (disk : Disk) (key : String) (s : Store) (lease : Option Reader)
    → IsValid s
    → lookup key s.leases ≡ lease
    → IsValid (close_found disk key s lease).0
unfolding close_found
close_found-IsValid disk key s none v h = v
close_found-IsValid disk key s (some r) v h = ground (arith, v, close_open-IsValid disk key r s v h)

pub close_reader-IsValid :
    (disk : Disk) (key : String) (s : Store) → IsValid s → IsValid (close_reader disk key s).0
unfolding close_reader
close_reader-IsValid disk key s v = close_found-IsValid disk key s (lookup key s.leases) v refl
