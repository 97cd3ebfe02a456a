-- ===== src/Agent/Async/Begun.antt =====
-- Buffers and jobs begin with fresh handles, and keep the slots.
use text.Mathlib.Text.{◌==◌ as str_eq}
use onprest.Prelude.{ℕ, ◌+◌, ◌≡◌, Bool, false, Option, none, some, String, Bytes, arith}
use onprest.Prelude.Dict.{lookup, lookup-insert, lookup-remove}
use onprest.Agent.Async.{
  buffer_kind, job_kind, reserved_kind, Entry, Job, new_entry, Session, Answer, handle, async_id,
  delete_found, async_delete, async_control, job_control,
}
use onprest.Agent.Async.Jobs.{
  Task, malformed, too_large, plain, writes, buffer_made, begin_buffer, delete_made, acknowledged,
  job_made, new_job, start_job, with_input, begin_task, begin_job,
}
use onprest.Agent.Async.Slots.{
  IsValid, IsFresh, async_id-IsValid, async_delete-IsValid, async_control-IsValid,
  job_control-IsValid,
}

-- Two new handles differ.
abbrev pub Apart : Option String → Option String → Type 0
Apart (some a) (some b) = str_eq a b ≡ false
Apart _ _ = Unit

async_id-IsFresh :
    (k c : Option String) (e : Entry) (s : Session)
    → Apart k c
    → IsFresh c s
    → IsFresh c (async_id k e s).0
unfolding async_id
async_id-IsFresh none c e s apart fresh = fresh
async_id-IsFresh (some a) none e s apart fresh = tt
async_id-IsFresh (some a) (some b) e s apart fresh =
    ground (arith, apart, fresh, lookup-insert a b e s.entries)

async_delete-IsFresh :
    (k : String) (c : Option String) (s : Session) → IsFresh c s → IsFresh c (async_delete k s)
unfolding async_delete delete_found
async_delete-IsFresh k none s fresh = tt
async_delete-IsFresh k (some b) s fresh = found (lookup k s.entries)
  where
    found : (o : Option Entry) → IsFresh (some b) (delete_found k o s)
    found none = fresh
    found (some e) = ground (arith, fresh, lookup-remove k b s.entries)

pub flags-IsValid :
    (jobs : ℕ) (stopping failure : Bool) (s : Session)
    → IsValid s
    → IsValid (record s { jobs = jobs; stopping = stopping; failure = failure })
flags-IsValid jobs stopping failure s v = record {
  distinct = v.distinct;
  accounted = v.accounted;
  within_limit = v.within_limit;
}

buffer_made-IsValid :
    (control : Option String) (raw : Option Bytes) (r : Session × Option String)
    → IsValid r.0
    → IsFresh control r.0
    → IsValid (buffer_made control raw r).0
unfolding buffer_made
buffer_made-IsValid control raw (s, none) v fresh = v
buffer_made-IsValid control raw (s, some k) v fresh =
    let w = async_control-IsValid control raw s v fresh in
    ground (arith, w, async_delete-IsValid k (async_control control raw s).0 w)

pub begin_buffer-IsValid :
    (k control : Option String) (raw : Option Bytes) (s : Session)
    → IsValid s
    → IsFresh k s
    → IsFresh control s
    → Apart k control
    → IsValid (begin_buffer k control raw s).0
unfolding begin_buffer
begin_buffer-IsValid k control raw s v new new' apart =
    buffer_made-IsValid control raw (async_id k (new_entry buffer_kind) s)
      (async_id-IsValid k (new_entry buffer_kind) s v new)
      (async_id-IsFresh k control (new_entry buffer_kind) s apart new')

delete_made-IsValid : (k : Option String) (s : Session) → IsValid s → IsValid (delete_made k s)
delete_made-IsValid none s v = v
delete_made-IsValid (some k) s v = async_delete-IsValid k s v

acknowledged-IsValid :
    (k : String) (r : Session × Answer) → IsValid r.0 → IsValid (acknowledged k r).0
unfolding acknowledged
acknowledged-IsValid k (s, handle c) v = flags-IsValid (s.jobs + 1) s.stopping s.failure s v
acknowledged-IsValid k (s, _) v = async_delete-IsValid k s v

job_made-IsValid :
    (control payload : Option String) (raw : Option Bytes) (j : Job) (r : Session × Option String)
    → IsValid r.0
    → IsFresh control r.0
    → IsFresh payload r.0
    → Apart control payload
    → IsValid (job_made control payload raw j r).0
unfolding job_made
job_made-IsValid control payload raw j (s, none) v new new' apart = v
job_made-IsValid control payload raw j (s, some k) v new new' apart =
    let reserved = new_entry reserved_kind in
    let (t, c) = async_id control reserved s in
    let (u, d) = async_id payload reserved t in
    let w =
      async_id-IsValid payload reserved t (async_id-IsValid control reserved s v new)
        (async_id-IsFresh control payload reserved s apart new') in
    ground (
      arith,
      delete_made-IsValid d (delete_made c (async_delete k u))
          (delete_made-IsValid c (async_delete k u) (async_delete-IsValid k u w)),
      acknowledged-IsValid k (job_control j raw u) (job_control-IsValid j raw u w),
    )

-- The new handles of a job are fresh, and differ.
pub record AreFresh (k control payload : Option String) (s : Session) : Type 0 where
  pub job_fresh : IsFresh k s
  pub control_fresh : IsFresh control s
  pub payload_fresh : IsFresh payload s
  pub apart_control : Apart k control
  pub apart_payload : Apart k payload
  pub apart_slots : Apart control payload

start_job-IsValid :
    (k control payload : Option String) (raw : Option Bytes) (s : Session)
    → IsValid s
    → AreFresh k control payload s
    → IsValid (start_job k control payload raw s).0
unfolding start_job
start_job-IsValid k control payload raw s v new =
    let j = new_job control payload in
    let e = record (new_entry job_kind) { job = some j } in
    job_made-IsValid control payload raw j (async_id k e s) (async_id-IsValid k e s v new.job_fresh)
      (async_id-IsFresh k control e s new.apart_control new.control_fresh)
      (async_id-IsFresh k payload e s new.apart_payload new.payload_fresh) new.apart_slots

with_input-IsValid :
    (input : String) (k control payload : Option String) (raw : Option Bytes) (s : Session)
    (o : Option Entry)
    → IsValid s
    → AreFresh k control payload s
    → IsValid (with_input input (start_job k control payload raw) s o).0
unfolding with_input
with_input-IsValid input k control payload raw s none v new = v
with_input-IsValid input k control payload raw s (some e) v new = ground (
  arith,
  v,
  start_job-IsValid k control payload raw (async_delete input s) (async_delete-IsValid input s v)
      (record {
        job_fresh = async_delete-IsFresh input k s new.job_fresh;
        control_fresh = async_delete-IsFresh input control s new.control_fresh;
        payload_fresh = async_delete-IsFresh input payload s new.payload_fresh;
        apart_control = new.apart_control;
        apart_payload = new.apart_payload;
        apart_slots = new.apart_slots;
      }),
)

begin_task-IsValid :
    (task : Task) (k control payload : Option String) (raw : Option Bytes) (s : Session)
    → IsValid s
    → AreFresh k control payload s
    → IsValid (begin_task task (start_job k control payload raw) s).0
unfolding begin_task
begin_task-IsValid malformed k control payload raw s v new = v
begin_task-IsValid too_large k control payload raw s v new = v
begin_task-IsValid plain k control payload raw s v new =
    start_job-IsValid k control payload raw s v new
begin_task-IsValid (writes input) k control payload raw s v new =
    with_input-IsValid input k control payload raw s (lookup input s.entries) v new

pub begin_job-IsValid :
    (task : Task) (k control payload : Option String) (raw : Option Bytes) (s : Session)
    → IsValid s
    → AreFresh k control payload s
    → IsValid (begin_job task k control payload raw s).0
unfolding begin_job
begin_job-IsValid task k control payload raw s v new =
    ground (arith, v, begin_task-IsValid task k control payload raw s v new)
