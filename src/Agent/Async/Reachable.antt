-- ===== src/Agent/Async/Reachable.antt =====
-- The states of a session's handles that a guest's calls, jobs and synchronous handles reach, in any order.
use onprest.Prelude.{
  ℕ, ◌-◌, ◌≡◌, refl, Bool, true, false, [], ◌∷◌, Bool-cases, inl, inr, Option, none, some, String,
  Bytes, arith,
}
use onprest.Prelude.Dict.{Dict, lookup, sum, Distinct}
use onprest.Agent.Async.{
  data_kind, Entry, Job, Session, new_session, Answer, is_invalid, add_handle, delete_handle,
  async_delete, put, job_control, read, write, close, async_control,
}
use onprest.Agent.Async.Jobs.{
  Task, admitted, begin_buffer, begin_job, on_job, cancel_job, hand_over, detach, finish_job,
  poll_job, complete_job, cancel_all, commit_result, delete_all, stop_start, stop_finish, detached,
  handed_over, not_empty,
}
use onprest.Agent.Async.Slots.{
  IsValid, one, IsFresh, put-IsValid, async_delete-IsValid, async_control-IsValid,
  job_control-IsValid, read-IsValid, write-IsValid, close-IsValid, add_handle-IsValid,
  delete_handle-IsValid,
}
use onprest.Agent.Async.Begun.{
  Apart, AreFresh, flags-IsValid, begin_buffer-IsValid, begin_job-IsValid,
}

-- An operation on a job keeps the session valid, where it does so on the entry of a job.
on_job-IsValid :
    (k : String) (f : Entry → Job → Session × Answer) (s : Session)
    → IsValid s
    → ((e : Entry) (j : Job) → lookup k s.entries ≡ some e → IsValid (f e j).0)
    → IsValid (on_job f s (lookup k s.entries)).0
on_job-IsValid k f s v each = found (lookup k s.entries) refl
  where
    job_of :
        (e : Entry) (o : Option Job)
        → lookup k s.entries ≡ some e
        → IsValid (elim o as (λ _. Session × Answer) [ none ↦ (s, is_invalid) | some j ↦ f e j ]).0
    job_of e none h = v
    job_of e (some j) h = each e j h

    found : (o : Option Entry) → lookup k s.entries ≡ o → IsValid (on_job f s o).0
    found none h = v
    found (some e) h = job_of e e.job h

cancel_job-IsValid :
    (k : String) (raw : Option Bytes) (s : Session) → IsValid s → IsValid (cancel_job k raw s).0
unfolding cancel_job
cancel_job-IsValid k raw s v = on_job-IsValid k _ s v (λ e j h.
    job_control-IsValid j raw (put k (record e { job = some (record j { canceled = true }) }) s)
      (put-IsValid k e (record e { job = some (record j { canceled = true }) }) s v h))

complete_job-IsValid :
    (k : String) (output : Bytes) (s : Session) → IsValid s → IsValid (complete_job k output s)
unfolding complete_job
complete_job-IsValid k output s v = on_job-IsValid k _ s v (λ e j h.
    put-IsValid k e (record e { job = some (record j { is_done = true; output = output }) }) s v h)

-- What holds of a session, unless there was a panic.
abbrev All : Option Session → Type 0
All none = Unit
All (some s) = IsValid s

hand_over-IsValid :
    (j : Job) (o : Option Entry) (s : Session)
    → IsValid s
    → lookup j.payload s.entries ≡ o
    → All (hand_over j o s)
unfolding hand_over
hand_over-IsValid j none s v h = elim (Bool-cases (not_empty j.output)) [
  | inl has ↦ rw (has, hand_over) tt
  | inr empty ↦ rw (empty, hand_over) (async_delete-IsValid j.payload s v)
]
hand_over-IsValid j (some e) s v h = elim (Bool-cases (not_empty j.output)) [
  | inl has ↦
      rw (has, hand_over)
        (put-IsValid j.payload e (record e { kind = data_kind; left = j.output }) s v h)
  | inr empty ↦ rw (empty, hand_over) (async_delete-IsValid j.payload s v)
]

detach-IsValid :
    (j : Job) (o : Option Entry) (s : Session)
    → IsValid s
    → lookup j.control s.entries ≡ o
    → All (detach j o s)
unfolding detach
detach-IsValid j none s v h = tt
detach-IsValid j (some e) s v h = put-IsValid j.control e (record e { borrowed = false }) s v h

detached-IsValid :
    (k : String) (s : Session) (answer : Answer) (o : Option Session)
    → IsValid s
    → All o
    → IsValid (detached k s answer o).0
unfolding detached
detached-IsValid k s answer none v all = v
detached-IsValid k s answer (some t) v all =
    let w = async_delete k t in
    flags-IsValid (w.jobs - 1) w.stopping w.failure w (async_delete-IsValid k t all)

handed_over-IsValid :
    (k : String) (j : Job) (raw : Option Bytes) (s : Session) (o : Option Session)
    → IsValid s
    → All o
    → IsValid (handed_over k j raw s o).0
unfolding handed_over
handed_over-IsValid k j raw s none v all = v
handed_over-IsValid k j raw s (some t) v all =
    let (u, answer) = job_control j raw t in
    let valid = job_control-IsValid j raw t all in
    detached-IsValid k u answer (detach j (lookup j.control u.entries) u) valid
      (detach-IsValid j (lookup j.control u.entries) u valid refl)

finish_job-IsValid :
    (k : String) (j : Job) (raw : Option Bytes) (s : Session)
    → IsValid s
    → IsValid (finish_job k j raw s).0
unfolding finish_job
finish_job-IsValid k j raw s v =
    handed_over-IsValid k j raw s (hand_over j (lookup j.payload s.entries) s) v
      (hand_over-IsValid j (lookup j.payload s.entries) s v refl)

poll_job-IsValid :
    (k : String) (raw : Option Bytes) (s : Session) → IsValid s → IsValid (poll_job k raw s).0
unfolding poll_job
poll_job-IsValid k raw s v =
    on_job-IsValid k _ s v
      (λ e j h. ground (arith, v, job_control-IsValid j raw s v, finish_job-IsValid k j raw s v))

lookup-cancel_all :
    (k : String) (entries : Dict Entry)
    → lookup k entries ≡ none
    → lookup k (cancel_all entries) ≡ none
unfolding lookup cancel_all
lookup-cancel_all k [] h = h
lookup-cancel_all k ((i, e) ∷ entries) h = ground (arith, h, lookup-cancel_all k entries)

cancel_all-Distinct : (entries : Dict Entry) → Distinct entries → Distinct (cancel_all entries)
unfolding cancel_all
cancel_all-Distinct [] d = tt
cancel_all-Distinct ((i, e) ∷ entries) d =
    (lookup-cancel_all i entries d.0, cancel_all-Distinct entries d.1)

sum-cancel_all : (entries : Dict Entry) → sum one (cancel_all entries) ≡ sum one entries
unfolding sum cancel_all
sum-cancel_all [] = refl
sum-cancel_all ((i, e) ∷ entries) = omega (arith, sum-cancel_all entries)

failed-IsValid :
    (s : Session)
    → IsValid s
    → IsValid (record s { failure = true; entries = cancel_all s.entries })
failed-IsValid s v = record {
  distinct = cancel_all-Distinct s.entries v.distinct;
  accounted = omega (arith, v.accounted, sum-cancel_all s.entries);
  within_limit = v.within_limit;
}

commit_result-IsValid : (s : Session) → IsValid s → IsValid (commit_result s)
unfolding commit_result
commit_result-IsValid s v = ground (arith, v, failed-IsValid s v)

delete_all-IsValid :
    (entries : Dict Entry) (s : Session) → IsValid s → IsValid (delete_all entries s)
unfolding delete_all
delete_all-IsValid [] s v = v
delete_all-IsValid ((k, e) ∷ entries) s v =
    delete_all-IsValid entries (async_delete k s) (async_delete-IsValid k s v)

stop_start-IsValid : (s : Session) → IsValid s → IsValid (stop_start s)
unfolding stop_start
stop_start-IsValid s v =
    let canceled = record s { failure = true; entries = cancel_all s.entries } in
    flags-IsValid s.jobs true s.failure canceled (failed-IsValid s v)

stop_finish-IsValid : (s : Session) → IsValid s → IsValid (stop_finish s)
unfolding stop_finish
stop_finish-IsValid s v =
    let t = delete_all s.entries s in
    flags-IsValid 0 t.stopping t.failure t (delete_all-IsValid s.entries s v)

admitted-IsValid :
    (lifetime_over terminal starts : Bool) (method : Session → Session × Answer) (s : Session)
    → IsValid s
    → IsValid (method s).0
    → IsValid (admitted lifetime_over terminal starts method s).0
unfolding admitted
admitted-IsValid lifetime_over terminal starts method s v w =
    ground (arith, v, w, flags-IsValid s.jobs s.stopping true s v)

pub data Step (s : Session) : Session → Type 0 where
  handle_added : Step s (add_handle s)
  handle_deleted : Step s (delete_handle s)
  was_read : (k : String) (count : ℕ) → Step s (read k count s).0
  written : (k : String) (p : Bytes) → Step s (write k p s).0
  closed : (k : String) → Step s (close k s).0
  logged : (k : Option String) (raw : Option Bytes) → IsFresh k s → Step s (async_control k raw s).0
  buffered :
      (lifetime_over terminal : Bool) (k control : Option String) (raw : Option Bytes)
      → IsFresh k s
      → IsFresh control s
      → Apart k control
      → Step s (admitted lifetime_over terminal true (begin_buffer k control raw) s).0
  began :
      (lifetime_over terminal : Bool) (task : Task) (k control payload : Option String)
      (raw : Option Bytes)
      → AreFresh k control payload s
      → Step s (admitted lifetime_over terminal true (begin_job task k control payload raw) s).0
  canceled :
      (lifetime_over terminal : Bool) (k : String) (raw : Option Bytes)
      → Step s (admitted lifetime_over terminal false (cancel_job k raw) s).0
  polled :
      (lifetime_over terminal : Bool) (k : String) (raw : Option Bytes)
      → Step s (admitted lifetime_over terminal false (poll_job k raw) s).0
  completed : (k : String) (output : Bytes) → Step s (complete_job k output s)
  committed : Step s (commit_result s)
  stop_began : Step s (stop_start s)
  stopped : Step s (stop_finish s)

pub data Reachable (limit host_calls : ℕ) : Session → Type 0 where
  begun : Reachable limit host_calls (new_session limit host_calls)
  after : {s t : Session} → Reachable limit host_calls s → Step s t → Reachable limit host_calls t

Step-IsValid : {s t : Session} → Step s t → IsValid s → IsValid t
Step-IsValid {s} handle_added v = add_handle-IsValid s v
Step-IsValid {s} handle_deleted v = delete_handle-IsValid s v
Step-IsValid {s} (was_read k count) v = read-IsValid k count s v
Step-IsValid {s} (written k p) v = write-IsValid k p s v
Step-IsValid {s} (closed k) v = close-IsValid k s v
Step-IsValid {s} (logged k raw new) v = async_control-IsValid k raw s v new
Step-IsValid {s} (buffered over terminal k control raw new new' apart) v =
    admitted-IsValid over terminal true (begin_buffer k control raw) s v
      (begin_buffer-IsValid k control raw s v new new' apart)
Step-IsValid {s} (began over terminal task k control payload raw new) v =
    admitted-IsValid over terminal true (begin_job task k control payload raw) s v
      (begin_job-IsValid task k control payload raw s v new)
Step-IsValid {s} (canceled over terminal k raw) v =
    admitted-IsValid over terminal false (cancel_job k raw) s v (cancel_job-IsValid k raw s v)
Step-IsValid {s} (polled over terminal k raw) v =
    admitted-IsValid over terminal false (poll_job k raw) s v (poll_job-IsValid k raw s v)
Step-IsValid {s} (completed k output) v = complete_job-IsValid k output s v
Step-IsValid {s} committed v = commit_result-IsValid s v
Step-IsValid {s} stop_began v = stop_start-IsValid s v
Step-IsValid {s} stopped v = stop_finish-IsValid s v

-- In every state of a session that a guest's calls, its jobs and synchronous handles reach, in any
-- order and with fresh random handles, the slots in use are exactly the synchronous handles and the
-- asynchronous entries, whose handles are distinct, and within the limit.
pub slots-IsValid : (limit host_calls : ℕ) (s : Session) → Reachable limit host_calls s → IsValid s
unfolding sum
slots-IsValid limit host_calls s begun = record {
  distinct = tt;
  accounted = refl;
  within_limit = omega arith;
}
slots-IsValid limit host_calls s (after r step) =
    Step-IsValid step (slots-IsValid limit host_calls _ r)
