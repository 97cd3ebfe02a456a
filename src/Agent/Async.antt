-- ===== src/Agent/Async.antt =====
-- The asynchronous handles of internal/agent/wasmruntime/async.go: the slots that handles take, the buffers
-- and controls that a guest reads, writes and closes, and the jobs. A handle is a key, a fresh one an
-- argument (`none` where there is no randomness), and the JSON of a control is an argument too.
pub mod Jobs
pub mod Slots
pub mod Begun
pub mod Reachable
use Prim.Native.Nat.{min}
use onprest.Prelude.{
  ℕ, ◌+◌, ◌-◌, Bool, true, false, not, ◌&&◌, ◌||◌, List, [], ◌∷◌, ◌++◌, Option, none, some, String,
  Bytes, length, leb, ltb, ◌==◌, if◌then◌else◌, take, drop,
}
use onprest.Prelude.Dict.{Dict, lookup, insert, remove}

abbrev pub chunk : ℕ
chunk = 65536

pub data Kind : Type 0 where
  data_kind buffer_kind job_kind reserved_kind : Kind

-- `asyncJob`; its control and payload slots are handles.
pub record Job : Type 0 where
  pub control : String
  pub payload : String
  pub canceled : Bool
  pub is_done : Bool
  pub output : Bytes

-- `asyncEntry`; `left` is what its reader has not read.
pub record Entry : Type 0 where
  pub kind : Kind
  pub left : Bytes
  pub buffer : Bytes
  pub ready : Bool
  pub job : Option Job
  pub borrowed : Bool

abbrev pub new_entry : Kind → Entry
new_entry kind = record {
  kind = kind;
  left = [];
  buffer = [];
  ready = false;
  job = none;
  borrowed = false;
}

-- The part of a session that handles and jobs use. `others` is the number of its synchronous handles.
pub record Session : Type 0 where
  pub limit : ℕ
  pub host_calls : ℕ
  pub slots : ℕ
  pub others : ℕ
  pub entries : Dict Entry
  pub jobs : ℕ
  pub stopping : Bool
  pub failure : Bool

abbrev pub new_session : ℕ → ℕ → Session
new_session limit host_calls = record {
  limit = limit;
  host_calls = host_calls;
  slots = 0;
  others = 0;
  entries = [];
  jobs = 0;
  stopping = false;
  failure = false;
}

-- The response to a guest: an error's code, a handle, or a count with the bytes that were read; or the
-- panic of an operation on an entry that is missing.
pub data Answer : Type 0 where
  is_invalid over_limit is_canceled panics : Answer
  handle : String → Answer
  counted : ℕ → Bytes → Answer

-- `reserveHandle` with the new synchronous handle, and `deleteHandle` of one.
unfoldable pub add_handle : Session → Session
add_handle s =
    if leb s.limit s.slots then s else record s { slots = s.slots + 1; others = s.others + 1 }

unfoldable pub delete_handle : Session → Session
delete_handle s =
    if s.others == 0 then s else record s { slots = s.slots - 1; others = s.others - 1 }

-- `asyncID`.
unfoldable pub async_id : Option String → Entry → Session → Session × Option String
async_id none e s = (s, none)
async_id (some k) e s =
    if leb s.limit s.slots
    then (s, none)
    else (record s { slots = s.slots + 1; entries = insert k e s.entries }, some k)

unfoldable pub delete_found : String → Option Entry → Session → Session
delete_found k none s = s
delete_found k (some e) s = record s { slots = s.slots - 1; entries = remove k s.entries }

-- `asyncDelete`.
unfoldable pub async_delete : String → Session → Session
async_delete k s = delete_found k (lookup k s.entries) s

unfoldable pub fits : Option Bytes → Bool
fits none = false
fits (some raw) = leb (length raw) chunk

abbrev pub or_empty : Option Bytes → Bytes
or_empty none = []
or_empty (some raw) = raw

unfoldable pub control_made : Session × Option String → Session × Answer
control_made (s, none) = (s, over_limit)
control_made (s, some k) = (s, handle k)

-- `asyncControl` of the JSON `raw`, in a new handle.
unfoldable pub async_control : Option String → Option Bytes → Session → Session × Answer
async_control k raw s =
    if not (fits raw)
    then (s, is_invalid)
    else control_made (async_id k (record (new_entry data_kind) { left = or_empty raw }) s)

abbrev pub is_kind : Kind → Kind → Bool
is_kind data_kind data_kind = true
is_kind buffer_kind buffer_kind = true
is_kind job_kind job_kind = true
is_kind reserved_kind reserved_kind = true
is_kind _ _ = false

abbrev pub put : String → Entry → Session → Session
put k e s = record s { entries = insert k e s.entries }

-- An operation on an entry, where it exists.
abbrev pub on_found : (Entry → Session × Answer) → Session → Option Entry → Session × Answer
on_found f s none = (s, is_invalid)
on_found f s (some e) = f e

abbrev pub on_entry : String → (Entry → Session × Answer) → Session → Session × Answer
on_entry k f s = on_found f s (lookup k s.entries)

-- `jobControl`.
unfoldable pub job_control : Job → Option Bytes → Session → Session × Answer
job_control j raw s =
    on_entry j.control
      (λ e. if not (is_kind e.kind reserved_kind) || not (fits raw) then (s, is_invalid) else (
        put j.control (record e { kind = data_kind; left = or_empty raw; borrowed = true }) s,
        handle j.control,
      ))
      s

-- The reads, writes and closings of `asyncDispatch`.
unfoldable pub read : String → ℕ → Session → Session × Answer
read k count s =
    on_entry k
      (λ e. if not (is_kind e.kind data_kind) || ltb chunk count then (s, is_invalid) else (
        put k (record e { left = drop count e.left }) s,
        counted (min count (length e.left)) (take count e.left),
      ))
      s

unfoldable pub write : String → Bytes → Session → Session × Answer
write k p s =
    on_entry k
      (λ e.
        if not (is_kind e.kind buffer_kind)
          || (e.ready || (ltb chunk (length p) || ltb chunk (length e.buffer + length p)))
        then (s, over_limit)
        else (put k (record e { buffer = e.buffer ++ p }) s, counted (length p) []))
      s

abbrev pub has_job : Entry → Bool
has_job e = elim e.job [ none ↦ false | some j ↦ true ]

unfoldable pub close : String → Session → Session × Answer
close k s =
    on_entry k
      (λ e.
        if is_kind e.kind buffer_kind
        then if e.ready
          then (s, is_invalid)
          else (put k (record e { ready = true }) s, counted 0 [])
        else if has_job e
        then (s, is_invalid)
        else if e.borrowed
        then (
          put k (record e { kind = reserved_kind; left = []; borrowed = false }) s,
          counted 0 [],
        )
        else (async_delete k s, counted 0 []))
      s
