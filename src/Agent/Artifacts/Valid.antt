-- ===== src/Agent/Artifacts/Valid.antt =====
-- What holds of the store's usage, and the changes of a stage that keep it.
use onprest.Prelude.{
  ℕ, ◌+◌, ◌-◌, ◌≤◌, ◌≡◌, refl, Bool, true, false, ◌⊎◌, inl, inr, Option, none, some, String, arith,
}
use onprest.Prelude.Dict.{
  Dict, lookup, insert, size, sum, All, sum-insert_new, sum-insert_old, sum-lookup-le, All-insert,
  All-lookup,
}
use onprest.Agent.Artifacts.{
  Fault, Stage, Request, OutputScope, Reader, Store, charge, counted, leased, objects,
}
use onprest.Agent.Artifacts.Leases.{
  AreCounted, insert-AreCounted, insert_new-AreCounted, closed-AreCounted,
}
use onprest.Agent.Artifacts.Stages.{poison, put, on_found, on_stage}

-- A stage that the store no longer lists is retired, and has no readers.
abbrev pub StageIsValid : Stage → Type 0
StageIsValid st = st.listed ≡ false → (st.retired ≡ true) × (st.readers ≡ 0)

abbrev pub RequestIsValid : Request → Type 0
RequestIsValid r = r.bytes ≤ r.limits.max_total_bytes

abbrev pub ScopeIsValid : OutputScope → Type 0
ScopeIsValid v = v.bytes ≤ v.limits.max_total_bytes

-- A store that is not poisoned keeps its quota.
abbrev pub Within : Bool → ℕ → ℕ → Type 0
Within poisoned used quota = (poisoned ≡ true) ⊎ (used ≤ quota)

pub quota-Within :
    (poisoned : Bool) (used quota : ℕ)
    → poisoned ≡ false
    → Within poisoned used quota
    → used ≤ quota
quota-Within poisoned used quota clean (inl p) = absurd (ground (arith, clean, p))
quota-Within poisoned used quota clean (inr h) = h

pub less-Within :
    (poisoned : Bool) (used used' quota : ℕ)
    → used' ≤ used
    → Within poisoned used quota
    → Within poisoned used' quota
less-Within poisoned used used' quota less (inl p) = inl p
less-Within poisoned used used' quota less (inr h) = inr (omega (arith, less, h))

pub record IsValid (s : Store) : Type 0 where
  pub usage : s.used ≡ sum charge s.stages + sum leased s.reservations
  pub within_quota : Within s.poisoned s.used s.options.quota_bytes
  pub few_objects : objects s ≤ s.options.max_objects
  pub few_readers : s.readers ≤ s.options.max_objects
  pub few_pending : size s.pending ≤ s.options.max_pending
  pub stages_valid : All StageIsValid s.stages
  pub requests_valid : All RequestIsValid s.requests
  pub scopes_valid : All ScopeIsValid s.scopes
  pub readers_counted : AreCounted s.leases s.stages

pub poison-IsValid : (s : Store) → IsValid s → IsValid (poison s)
poison-IsValid s v = record {
  usage = v.usage;
  within_quota = inl refl;
  few_objects = v.few_objects;
  few_readers = v.few_readers;
  few_pending = v.few_pending;
  stages_valid = v.stages_valid;
  requests_valid = v.requests_valid;
  scopes_valid = v.scopes_valid;
  readers_counted = v.readers_counted;
}

-- A stage's charge is part of what is used.
pub charge-le :
    (id : String) (st : Stage) (s : Store)
    → lookup id s.stages ≡ some st
    → charge st ≤ sum charge s.stages
charge-le id st s e = sum-lookup-le charge id st s.stages e

-- A listed stage is changed, and the usage by as much as its charge.
pub put-IsValid :
    (id : String) (st st' : Stage) (used : ℕ) (s : Store)
    → IsValid s
    → lookup id s.stages ≡ some st
    → StageIsValid st'
    → used + charge st ≡ s.used + charge st'
    → Within s.poisoned used s.options.quota_bytes
    → counted st' ≤ counted st
    → st.readers ≤ st'.readers
    → IsValid (record s { used = used; stages = insert id st' s.stages })
put-IsValid id st st' used s v e ok balance within fewer more = record {
  usage = omega (arith, balance, v.usage, sum-insert_old charge id st' st s.stages e);
  within_quota = within;
  few_objects = omega (arith, fewer, v.few_objects, sum-insert_old counted id st' st s.stages e);
  few_readers = v.few_readers;
  few_pending = v.few_pending;
  stages_valid = All-insert StageIsValid id st' s.stages v.stages_valid ok;
  requests_valid = v.requests_valid;
  scopes_valid = v.scopes_valid;
  readers_counted = insert-AreCounted id st st' s.leases s.stages v.readers_counted e more;
}

-- A stage is changed in nothing that counts.
pub touch-IsValid :
    (id : String) (st st' : Stage) (s : Store)
    → IsValid s
    → lookup id s.stages ≡ some st
    → StageIsValid st'
    → charge st' ≡ charge st
    → counted st' ≡ counted st
    → st.readers ≤ st'.readers
    → IsValid (put id st' s)
touch-IsValid id st st' s v e ok same_charge same_count more =
    put-IsValid id st st' s.used s v e ok (omega (arith, same_charge)) v.within_quota
      (omega (arith, same_count)) more

-- A new stage takes one object, and none of the quota.
pub insert_stage-IsValid :
    (id : String) (st : Stage) (s : Store)
    → IsValid s
    → lookup id s.stages ≡ none
    → StageIsValid st
    → charge st ≡ 0
    → objects s + counted st ≤ s.options.max_objects
    → IsValid (put id st s)
insert_stage-IsValid id st s v e ok empty room = record {
  usage = omega (arith, empty, v.usage, sum-insert_new charge id st s.stages e);
  within_quota = v.within_quota;
  few_objects = omega (arith, room, sum-insert_new counted id st s.stages e);
  few_readers = v.few_readers;
  few_pending = v.few_pending;
  stages_valid = All-insert StageIsValid id st s.stages v.stages_valid ok;
  requests_valid = v.requests_valid;
  scopes_valid = v.scopes_valid;
  readers_counted = insert_new-AreCounted id st s.leases s.stages v.readers_counted e;
}

pub pending-IsValid :
    (pending : Dict String) (s : Store)
    → IsValid s
    → size pending ≤ s.options.max_pending
    → IsValid (record s { pending = pending })
pending-IsValid pending s v few = record {
  usage = v.usage;
  within_quota = v.within_quota;
  few_objects = v.few_objects;
  few_readers = v.few_readers;
  few_pending = few;
  stages_valid = v.stages_valid;
  requests_valid = v.requests_valid;
  scopes_valid = v.scopes_valid;
  readers_counted = v.readers_counted;
}

pub requests-IsValid :
    (requests : Dict Request) (s : Store)
    → IsValid s
    → All RequestIsValid requests
    → IsValid (record s { requests = requests })
requests-IsValid requests s v ok = record {
  usage = v.usage;
  within_quota = v.within_quota;
  few_objects = v.few_objects;
  few_readers = v.few_readers;
  few_pending = v.few_pending;
  stages_valid = v.stages_valid;
  requests_valid = ok;
  scopes_valid = v.scopes_valid;
  readers_counted = v.readers_counted;
}

pub scopes-IsValid :
    (scopes : Dict OutputScope) (s : Store)
    → IsValid s
    → All ScopeIsValid scopes
    → IsValid (record s { scopes = scopes })
scopes-IsValid scopes s v ok = record {
  usage = v.usage;
  within_quota = v.within_quota;
  few_objects = v.few_objects;
  few_readers = v.few_readers;
  few_pending = v.few_pending;
  stages_valid = v.stages_valid;
  requests_valid = v.requests_valid;
  scopes_valid = ok;
  readers_counted = v.readers_counted;
}

pub readers-IsValid :
    (readers : ℕ) (s : Store)
    → IsValid s
    → readers ≤ s.options.max_objects
    → IsValid (record s { readers = readers })
readers-IsValid readers s v few = record {
  usage = v.usage;
  within_quota = v.within_quota;
  few_objects = v.few_objects;
  few_readers = few;
  few_pending = v.few_pending;
  stages_valid = v.stages_valid;
  requests_valid = v.requests_valid;
  scopes_valid = v.scopes_valid;
  readers_counted = v.readers_counted;
}

pub leases-IsValid :
    (leases : Dict Reader) (s : Store)
    → IsValid s
    → AreCounted leases s.stages
    → IsValid (record s { leases = leases })
leases-IsValid leases s v counts = record {
  usage = v.usage;
  within_quota = v.within_quota;
  few_objects = v.few_objects;
  few_readers = v.few_readers;
  few_pending = v.few_pending;
  stages_valid = v.stages_valid;
  requests_valid = v.requests_valid;
  scopes_valid = v.scopes_valid;
  readers_counted = counts;
}

-- An open reader of a stage closes.
pub closed_reader-IsValid :
    (key : String) (r : Reader) (st : Stage) (s : Store)
    → IsValid s
    → lookup r.stage s.stages ≡ some st
    → lookup key s.leases ≡ some r
    → r.is_closed ≡ false
    → IsValid (record s {
      readers = s.readers - 1;
      stages = insert r.stage (record st { readers = st.readers - 1 }) s.stages;
      leases = insert key (record r { canceled = true; is_closed = true }) s.leases;
    })
closed_reader-IsValid key r st s v e h live =
    let st' = record st { readers = st.readers - 1 } in
    let ok = All-lookup StageIsValid r.stage st s.stages v.stages_valid e in
    record {
      usage = omega (arith, v.usage, sum-insert_old charge r.stage st' st s.stages e);
      within_quota = v.within_quota;
      few_objects = omega (arith, v.few_objects, sum-insert_old counted r.stage st' st s.stages e);
      few_readers = omega (arith, v.few_readers);
      few_pending = v.few_pending;
      stages_valid =
          All-insert StageIsValid r.stage st' s.stages v.stages_valid
            (λ unlisted. ((ok unlisted).0, omega (arith, (ok unlisted).1)));
      requests_valid = v.requests_valid;
      scopes_valid = v.scopes_valid;
      readers_counted = closed-AreCounted key r st s.leases s.stages v.readers_counted e h live;
    }

-- An operation on a stage keeps the store valid, where it does so on a stage that exists.
pub on_stage-IsValid :
    (id : String) (f : Stage → Store × Option Fault) (s : Store)
    → IsValid s
    → ((st : Stage) → lookup id s.stages ≡ some st → IsValid (f st).0)
    → IsValid (on_stage id f s).0
on_stage-IsValid id f s v each = found (lookup id s.stages) refl
  where
    found : (o : Option Stage) → lookup id s.stages ≡ o → IsValid (on_found f s o).0
    found none e = v
    found (some st) e = each st e
