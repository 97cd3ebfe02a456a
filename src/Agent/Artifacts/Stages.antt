-- ===== src/Agent/Artifacts/Stages.antt =====
-- The stages of internal/agent/artifacts/store.go: creation, `Write`, `Close` and opening for reading. A
-- disk call's answer is an argument.
use text.Mathlib.Text.{◌==◌ as str_eq}
use Prim.Native.Nat.{min}
use onprest.Prelude.{
  ℕ, ◌+◌, ◌-◌, Bool, true, false, not, ◌&&◌, ◌||◌, [], ◌∷◌, ◌++◌, Option, none, some, String, Bytes,
  length, leb, ltb, ◌==◌, if◌then◌else◌, take,
}
use onprest.Prelude.Dict.{Dict, lookup, insert}
use onprest.Agent.Artifacts.{
  Fault, not_found, limit_exceeded, validation_failed, busy, conflict, execution_failed, Owner,
  Kind, Stage, receiving, released, Phase, Request, OutputScope, Store, size_of, objects, available,
  reserve_locked,
}

-- What creating a private file comes to: the last two are files that cannot be protected or examined,
-- which are removed, or left behind where the removal fails.
pub data Creation : Type 0 where
  no_entropy not_created created removed left_behind : Creation

abbrev pub poison : Store → Store
poison s = record s { poisoned = true }

abbrev pub put : String → Stage → Store → Store
put id st s = record s { stages = insert id st s.stages }

-- Store and error of an operation on a stage, where the stage exists.
abbrev pub on_found : (Stage → Store × Option Fault) → Store → Option Stage → Store × Option Fault
on_found f s none = (s, some not_found)
on_found f s (some st) = f st

abbrev pub on_stage : String → (Stage → Store × Option Fault) → Store → Store × Option Fault
on_stage id f s = on_found f s (lookup id s.stages)

abbrev pub new_file_stage : Owner → Kind → String → String → Stage
new_file_stage o kind name media = record {
  owner = o;
  kind = kind;
  name = name;
  mime = media;
  content = [];
  reserved = 0;
  is_open = true;
  sealed = false;
  ready = false;
  retained = false;
  retired = false;
  write_failed = false;
  readers = 0;
  request = none;
  scope = none;
  expires = 0;
  listed = true;
}

unfoldable pub created_stage : Creation → String → Stage → Store → Store × Option Fault
created_stage no_entropy id st s = (s, some execution_failed)
created_stage not_created id st s = (s, some execution_failed)
created_stage created id st s = (put id st s, none)
created_stage removed id st s = (s, some execution_failed)
created_stage left_behind id st s = (poison s, some execution_failed)

-- `newStage`, with the fresh `id`; `valid` tells that owner, context, name and media type are valid, and
-- `expired` that the context has an error. `st` is the stage as the callers complete it.
unfoldable pub new_stage : Bool → Bool → Creation → String → Stage → Store → Store × Option Fault
new_stage valid expired creation id st s = elim (available s) [
  | some e ↦ (s, some e)
  | none ↦
      if not valid
      then (s, some validation_failed)
      else if expired
      then (s, some execution_failed)
      else if leb s.options.max_objects (objects s)
      then (s, some busy)
      else created_stage creation id st s
]

-- The largest file for a stage of a request: that of its leaf, where it has one.
unfoldable pub leaf_limit : (String → Option ℕ) → String → ℕ → Dict String → ℕ
leaf_limit leaf_max id most [] = most
leaf_limit leaf_max id most ((pointer, candidate) ∷ files) =
    let rest = leaf_limit leaf_max id most files in
    if str_eq candidate id
    then elim (leaf_max pointer) [ none ↦ most | some n ↦ min most n ]
    else rest

abbrev pub is_receiving : Phase → Bool
is_receiving receiving = true
is_receiving _ = false

abbrev pub is_released : Phase → Bool
is_released released = true
is_released _ = false

-- The limits of a request and of an output scope on a write of `n` bytes.
unfoldable pub request_takes : String → Stage → ℕ → Option Request → Bool
request_takes id st n none = true
request_takes id st n (some r) =
    is_receiving r.phase
    && (leb (size_of st + n) (leaf_limit r.leaf_max id r.limits.max_file_bytes r.files)
        && leb (r.bytes + n) r.limits.max_total_bytes)

unfoldable pub scope_takes : Stage → ℕ → Option OutputScope → Bool
scope_takes st n none = true
scope_takes st n (some v) =
    leb (size_of st + n) v.limits.max_file_bytes && leb (v.bytes + n) v.limits.max_total_bytes

unfoldable pub find : {V : Type 0} → Option String → Dict V → Option V
find none d = none
find (some k) d = lookup k d

-- The guards of `Write`, in their order.
unfoldable pub write_refusal : Bool → String → Stage → ℕ → Store → Option Fault
write_refusal expired id st n s =
    if st.retired || (st.sealed || st.write_failed)
    then some conflict
    else if expired
    then some execution_failed
    else if ltb 65536 n
    then some limit_exceeded
    else if not (request_takes id st n (find st.request s.requests))
    then some limit_exceeded
    else if not (scope_takes st n (find st.scope s.scopes))
    then some limit_exceeded
    else none

unfoldable pub add_request_bytes : Option String → ℕ → Dict Request → Dict Request
add_request_bytes none n d = d
add_request_bytes (some k) n d = elim (lookup k d) [
  | none ↦ d
  | some r ↦ insert k (record r { bytes = r.bytes + n }) d
]

unfoldable pub add_scope_bytes : Option String → ℕ → Dict OutputScope → Dict OutputScope
add_scope_bytes none n d = d
add_scope_bytes (some k) n d = elim (lookup k d) [
  | none ↦ d
  | some v ↦ insert k (record v { bytes = v.bytes + n }) d
]

-- After the write of `n` of the bytes `p`; the write failed if `failed`, or if not all were written.
unfoldable pub wrote : String → Stage → Bytes → ℕ → Bool → Store → Store × Option Fault
wrote id st p n failed s =
    let bad = failed || not (n == length p) in
    let st' = record st {
      reserved = st.reserved - min (length p) st.reserved;
      content = st.content ++ take n p;
      write_failed = bad;
    } in
    (
      record s {
        used = s.used - (length p - n);
        stages = insert id st' s.stages;
        requests = add_request_bytes st.request n s.requests;
        scopes = add_scope_bytes st.scope n s.scopes;
      },
      if bad then some execution_failed else none,
    )

-- `Write` after the quota was reserved; the disk reports `n` written bytes.
unfoldable pub write_reserved :
    String → Stage → Bytes → ℕ → Bool → Store × Option Fault → Store × Option Fault
write_reserved id st p n failed (t, some e) = (t, some e)
write_reserved id st p n failed (t, none) =
    if ltb (length p) n then wrote id st p 0 true t else wrote id st p n failed t

-- `Write` after its guards, of which one may have refused it.
unfoldable pub write_checked :
    String → Stage → Bytes → ℕ → Bool → Store → Option Fault → Store × Option Fault
write_checked id st p n failed s (some e) = (s, some e)
write_checked id st p n failed s none =
    write_reserved id st p n failed (reserve_locked (length p - min (length p) st.reserved) s)

-- `Write`.
unfoldable pub write : Bool → String → Bytes → ℕ → Bool → Store → Store × Option Fault
write expired id p n failed s =
    on_stage id (λ st. write_checked id st p n failed s (write_refusal expired id st (length p) s))
      s

-- `sealLocked`; `fails` tells that the context has an error, or that syncing or closing the file fails.
unfoldable pub seal : Bool → String → Store → Store × Option Fault
seal fails id s =
    on_stage id
      (λ st.
        if st.retired
        then (s, some not_found)
        else if st.sealed
        then (s, if st.write_failed then some execution_failed else none)
        else (
          record s {
            used = s.used - st.reserved;
            stages =
                insert id
                  (record st {
                    sealed = true;
                    reserved = 0;
                    is_open = false;
                    write_failed = st.write_failed || fails;
                  })
                  s.stages;
          },
          if st.write_failed || fails then some execution_failed else none,
        ))
      s

-- `openLocked`, with the key of the new reader; `opens` is what the disk answers.
unfoldable pub open_locked : Bool → Option Fault → String → String → Store → Store × Option Fault
open_locked expired opens key id s =
    on_stage id
      (λ st.
        if not st.ready || st.retired
        then (s, some not_found)
        else if expired
        then (s, some execution_failed)
        else if leb s.options.max_objects s.readers
        then (s, some busy)
        else elim opens [
          | some e ↦ (s, some e)
          | none ↦ (
            record s {
              readers = s.readers + 1;
              stages = insert id (record st { readers = st.readers + 1 }) s.stages;
              leases =
                  insert key (record { stage = id; canceled = false; is_closed = false }) s.leases;
            },
            none,
          )
        ])
      s
