-- ===== src/Agent/Async/Jobs.antt =====
-- The `runtime` methods of asyncDispatch of internal/agent/wasmruntime/async.go, stopAsync, and the end of
-- runAsync. What the arguments of a method say is a `Task`; `lifetime_over` is the session's context.
use onprest.Prelude.{
  ◌+◌, ◌-◌, Bool, true, false, not, ◌&&◌, ◌||◌, [], ◌∷◌, Option, none, some, String, Bytes, leb,
  ◌==◌, if◌then◌else◌,
}
use onprest.Prelude.Dict.{Dict, lookup}
use onprest.Agent.Async.{
  data_kind, buffer_kind, job_kind, reserved_kind, Job, Entry, new_entry, Session, Answer,
  is_invalid, over_limit, is_canceled, panics, handle, async_id, async_delete, async_control,
  is_kind, put, job_control,
}

-- The arguments of `runtime.begin`: malformed, too large, for a write of a buffer, or any other.
pub data Task : Type 0 where
  malformed too_large plain : Task
  writes : String → Task

-- The checks before every `runtime` method; `starts` holds for `begin` and `buffer`.
unfoldable pub admitted :
    Bool → Bool → Bool → (Session → Session × Answer) → Session → Session × Answer
admitted lifetime_over terminal starts method s =
    if s.stopping || lifetime_over
    then (s, is_canceled)
    else if (s.failure || terminal) && starts
    then (record s { failure = true }, is_invalid)
    else method s

abbrev pub is_handle : Answer → Bool
is_handle (handle k) = true
is_handle _ = false

unfoldable pub buffer_made :
    Option String → Option Bytes → Session × Option String → Session × Answer
buffer_made control raw (s, none) = (s, over_limit)
buffer_made control raw (s, some k) =
    let (t, answer) = async_control control raw s in
    if is_handle answer then (t, answer) else (async_delete k t, answer)

-- `runtime.buffer`: a buffer, and a control that names it.
unfoldable pub begin_buffer :
    Option String → Option String → Option Bytes → Session → Session × Answer
begin_buffer k control raw s = buffer_made control raw (async_id k (new_entry buffer_kind) s)

abbrev pub key_of : Option String → String
key_of none = ""
key_of (some k) = k

-- `asyncDelete` of a handle, or of none.
abbrev pub delete_made : Option String → Session → Session
delete_made none s = s
delete_made (some k) s = async_delete k s

unfoldable pub acknowledged : String → Session × Answer → Session × Answer
acknowledged k (s, handle c) = (record s { jobs = s.jobs + 1 }, handle c)
acknowledged k (s, answer) = (async_delete k s, answer)

unfoldable pub is_some : Option String → Bool
is_some none = false
is_some (some k) = true

unfoldable pub job_made :
    Option String → Option String → Option Bytes → Job → Session × Option String → Session × Answer
job_made control payload raw j (s, none) = (s, over_limit)
job_made control payload raw j (s, some k) =
    let (t, c) = async_id control (new_entry reserved_kind) s in
    let (u, d) = async_id payload (new_entry reserved_kind) t in
    if not (is_some c) || not (is_some d)
    then (delete_made d (delete_made c (async_delete k u)), over_limit)
    else acknowledged k (job_control j raw u)

abbrev pub new_job : Option String → Option String → Job
new_job control payload = record {
  control = key_of control;
  payload = key_of payload;
  canceled = false;
  is_done = false;
  output = [];
}

-- The part of `runtime.begin` after its arguments.
unfoldable pub start_job :
    Option String → Option String → Option String → Option Bytes → Session → Session × Answer
start_job k control payload raw s =
    let j = new_job control payload in
    job_made control payload raw j (async_id k (record (new_entry job_kind) { job = some j }) s)

unfoldable pub with_input :
    String → (Session → Session × Answer) → Session → Option Entry → Session × Answer
with_input input start s none = (s, is_invalid)
with_input input start s (some e) =
    if not (is_kind e.kind buffer_kind) || not e.ready
    then (s, is_invalid)
    else start (async_delete input s)

unfoldable pub begin_task : Task → (Session → Session × Answer) → Session → Session × Answer
begin_task malformed start s = (s, is_invalid)
begin_task too_large start s = (s, over_limit)
begin_task plain start s = start s
begin_task (writes input) start s = with_input input start s (lookup input s.entries)

-- `runtime.begin`.
unfoldable pub begin_job :
    Task → Option String → Option String → Option String → Option Bytes → Session → Session × Answer
begin_job task k control payload raw s =
    if leb s.host_calls s.jobs
    then (s, over_limit)
    else begin_task task (start_job k control payload raw) s

-- An operation on a job, where the entry has one.
abbrev pub on_job : (Entry → Job → Session × Answer) → Session → Option Entry → Session × Answer
on_job f s none = (s, is_invalid)
on_job f s (some e) = elim e.job [ none ↦ (s, is_invalid) | some j ↦ f e j ]

-- `runtime.cancel`.
unfoldable pub cancel_job : String → Option Bytes → Session → Session × Answer
cancel_job k raw s =
    on_job
      (λ e j. job_control j raw (put k (record e { job = some (record j { canceled = true }) }) s))
      s (lookup k s.entries)

abbrev pub not_empty : Bytes → Bool
not_empty [] = false
not_empty (b ∷ bs) = true

-- The payload slot of a finished job gets its bytes, or is given back; `none` is the panic of a write
-- to an entry that is not there.
unfoldable pub hand_over : Job → Option Entry → Session → Option Session
hand_over j none s = if not_empty j.output then none else some (async_delete j.payload s)
hand_over j (some e) s =
    if not_empty j.output
    then some (put j.payload (record e { kind = data_kind; left = j.output }) s)
    else some (async_delete j.payload s)

-- A job's control is no longer borrowed; `none` is a panic.
unfoldable pub detach : Job → Option Entry → Session → Option Session
detach j none s = none
detach j (some e) s = some (put j.control (record e { borrowed = false }) s)

-- The end of the poll, and the entry of the job goes.
unfoldable pub detached : String → Session → Answer → Option Session → Session × Answer
detached k s answer none = (s, panics)
detached k s answer (some t) = let w = async_delete k t in (record w { jobs = w.jobs - 1 }, answer)

unfoldable pub handed_over :
    String → Job → Option Bytes → Session → Option Session → Session × Answer
handed_over k j raw s none = (s, panics)
handed_over k j raw s (some t) =
    let (u, answer) = job_control j raw t in
    detached k u answer (detach j (lookup j.control u.entries) u)

unfoldable pub finish_job : String → Job → Option Bytes → Session → Session × Answer
finish_job k j raw s = handed_over k j raw s (hand_over j (lookup j.payload s.entries) s)

unfoldable pub is_reserved : Option Entry → Bool
is_reserved none = false
is_reserved (some e) = is_kind e.kind reserved_kind

-- `runtime.poll`.
unfoldable pub poll_job : String → Option Bytes → Session → Session × Answer
poll_job k raw s =
    on_job
      (λ e j.
        if not j.is_done
        then job_control j raw s
        else if not (is_reserved (lookup j.control s.entries))
        then (s, is_invalid)
        else finish_job k j raw s)
      s (lookup k s.entries)

-- The end of `runAsync`: the job of the entry is done with `output`.
unfoldable pub complete_job : String → Bytes → Session → Session
complete_job k output s =
    (on_job
      (λ e j. (
        put k (record e { job = some (record j { is_done = true; output = output }) }) s,
        is_invalid,
      ))
      s (lookup k s.entries)).0

abbrev pub cancel_entry : Entry → Entry
cancel_entry e = elim e.job [
  | none ↦ e
  | some j ↦ record e { job = some (record j { canceled = true }) }
]

unfoldable pub cancel_all : Dict Entry → Dict Entry
cancel_all [] = []
cancel_all ((k, e) ∷ entries) = (k, cancel_entry e) ∷ cancel_all entries

-- `result.commit` before it goes on: while there are jobs it fails, and cancels them.
unfoldable pub commit_result : Session → Session
commit_result s =
    if not (s.jobs == 0) then record s { failure = true; entries = cancel_all s.entries } else s

unfoldable pub delete_all : Dict Entry → Session → Session
delete_all [] s = s
delete_all ((k, e) ∷ entries) s = delete_all entries (async_delete k s)

-- `stopAsync` before it waits for the jobs.
unfoldable pub stop_start : Session → Session
stop_start s = record s { stopping = true; entries = cancel_all s.entries }

-- `stopAsync` once the jobs have ended.
unfoldable pub stop_finish : Session → Session
stop_finish s = let t = delete_all s.entries s in record t { jobs = 0 }
