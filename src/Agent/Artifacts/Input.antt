-- ===== src/Agent/Artifacts/Input.antt =====
-- The requests of internal/agent/artifacts/input.go and `Abort` of a stage. `key` is the pointer of a
-- request. The clock and the contexts are arguments; that a value has a file's claims is compared here,
-- that it meets its leaf's constraints is an argument.
use text.Mathlib.Text.{◌==◌ as str_eq}
use Prim.Native.Nat.{min}
use onprest.Prelude.{
  ℕ, ◌+◌, Bool, true, false, not, ◌&&◌, ◌||◌, [], Option, none, some, String, Bytes, leb, ltb, ◌==◌,
  if◌then◌else◌,
}
use onprest.Prelude.Dict.{lookup, insert, size}
use onprest.Agent.Artifacts.{
  Fault, not_found, validation_failed, busy, conflict, limit_exceeded, permission_denied,
  execution_timeout, Owner, owner_eq, input, Stage, Phase, receiving, ready_to_run, executing,
  aborted, released, Limits, Request, Store, size_of, available,
}
use onprest.Agent.Artifacts.Stages.{Creation, new_file_stage, new_stage}

-- What `BeginInput` reads of a capability.
pub record Capability : Type 0 where
  pub name : String
  pub limits : Limits
  pub takes_files : Bool
  pub leaf_max : String → Option ℕ

abbrev pub new_request : Owner → Capability → ℕ → Request
new_request o c deadline = record {
  owner = o;
  limits = c.limits;
  leaf_max = c.leaf_max;
  deadline = deadline;
  canceled = false;
  stopped = false;
  phase = receiving;
  files = [];
  bytes = 0;
  started = false;
}

-- The earlier of the deadlines that are set.
abbrev pub earlier : ℕ → Option ℕ → ℕ
earlier a none = a
earlier a (some b) = min a b

-- `BeginInput` at the time `now`; `expired` is the context's error, `limit` its deadline.
unfoldable pub begin_input :
    Bool
    → Bool
    → Option ℕ
    → Option ℕ
    → ℕ
    → String
    → Owner
    → Capability
    → Store
    → Store × Option Fault
begin_input valid_owner expired limit asked now key o c s =
    let deadline = earlier (earlier (now + s.options.transfer_timeout) asked) limit in
    elim (available s) [
      | some e ↦ (s, some e)
      | none ↦
          if not (valid_owner && (str_eq c.name o.capability && c.takes_files))
          then (s, some validation_failed)
          else elim (lookup o.request_id s.pending) [
            | some k ↦ (s, some conflict)
            | none ↦
                if leb s.options.max_pending (size s.pending)
                then (s, some busy)
                else if leb deadline now || expired
                then (s, some execution_timeout)
                else if ltb c.limits.max_file_bytes 1
                    || (ltb c.limits.max_total_bytes c.limits.max_file_bytes
                        || ltb c.limits.max_files 1)
                then (s, some validation_failed)
                else (
                  record s {
                    requests = insert key (new_request o c deadline) s.requests;
                    pending = insert o.request_id key s.pending;
                  },
                  none,
                )
          ]
    ]

abbrev pub phase_eq : Phase → Phase → Bool
phase_eq receiving receiving = true
phase_eq ready_to_run ready_to_run = true
phase_eq executing executing = true
phase_eq aborted aborted = true
phase_eq released released = true
phase_eq _ _ = false

abbrev pub is_executing : Phase → Bool
is_executing executing = true
is_executing _ = false

-- `check`; `expired` tells that the deadline of the request has passed.
unfoldable pub check : Bool → Owner → Phase → Request → Store → Option Fault
check expired o phase r s =
    if not (owner_eq r.owner o) then some permission_denied else elim (available s) [
      | some e ↦ some e
      | none ↦
          if not (phase_eq r.phase phase)
          then some conflict
          else if not (is_executing phase) && (expired || r.canceled)
          then some execution_timeout
          else none
    ]

abbrev pub is_some : {A : Type 0} → Option A → Bool
is_some none = false
is_some (some a) = true

-- `NewFile`, once `check` lets it; `late` tells that the context has ended since, and `new` is the
-- stage's key.
unfoldable pub new_file_checked :
    Bool
    → Bool
    → Creation
    → String
    → String
    → String
    → String
    → String
    → Request
    → Store
    → Option Fault
    → Store × Option Fault
new_file_checked late valid creation pointer name media new key r s (some e) = (s, some e)
new_file_checked late valid creation pointer name media new key r s none =
    if not (is_some (r.leaf_max pointer))
    then (s, some validation_failed)
    else if is_some (lookup pointer r.files)
    then (s, some conflict)
    else if leb r.limits.max_files (size r.files)
    then (s, some limit_exceeded)
    else let st = record (new_file_stage r.owner input name media) { request = some key } in
      let (t, refused) = new_stage valid late creation new st s in
      if is_some refused then (t, refused) else (
        record t {
          requests = insert key (record r { files = insert pointer new r.files }) t.requests;
        },
        none,
      )

-- An operation on a request, where it exists.
abbrev pub request_found :
    (Request → Store × Option Fault) → Store → Option Request → Store × Option Fault
request_found f s none = (s, some not_found)
request_found f s (some r) = f r

abbrev pub on_request : String → (Request → Store × Option Fault) → Store → Store × Option Fault
on_request key f s = request_found f s (lookup key s.requests)

-- `NewFile`.
unfoldable pub new_file :
    Bool
    → Bool
    → Bool
    → Creation
    → String
    → String
    → String
    → String
    → String
    → Owner
    → Store
    → Store × Option Fault
new_file expired late valid creation pointer name media new key o s =
    on_request key
      (λ r.
        new_file_checked late valid creation pointer name media new key r s
          (check expired o receiving r s))
      s

-- A file's claims: name, media type, size and digest.
pub record Claims : Type 0 where
  pub name : String
  pub mime : String
  pub size_bytes : ℕ
  pub digest : String

-- `metadata`; `sha` stands for the SHA-256 digest in hexadecimal.
abbrev pub metadata : (Bytes → String) → Stage → Claims
metadata sha st = record {
  name = st.name;
  mime = st.mime;
  size_bytes = size_of st;
  digest = sha st.content;
}

unfoldable pub claims_eq : Claims → Claims → Bool
claims_eq a b =
    str_eq a.name b.name
    && (str_eq a.mime b.mime && (a.size_bytes == b.size_bytes && str_eq a.digest b.digest))

-- A file's value in the parameters of a request.
pub record FileValue : Type 0 where
  pub pointer : String
  pub id : String
  pub request_id : String
  pub claims : Claims

-- A file in the parameters, with the place where it stands.
pub record Leaf : Type 0 where
  pub pointer : String
  pub value : FileValue
