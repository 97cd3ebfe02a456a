-- ===== src/Agent/Artifacts.antt =====
-- The artifact store of internal/agent/artifacts/store.go: its state and the reservation of its quota.
-- Stages, requests, scopes, readers and reservations are kept by a key that stands for the pointer, also
-- after the source's maps no longer have them: `listed`, `pending` and `is_released` say what the maps have.
-- Errors are their codes. Expired contexts and what the disk answers are arguments.
pub mod Stages
pub mod Cleanup
pub mod Input
pub mod Requests
pub mod Output
pub mod Sweep
pub mod Inputs
pub mod Outputs
pub mod Sweeps
pub mod Saves
pub mod Reachable
pub mod Refusals
pub mod Leases
pub mod Valid
pub mod Quota
pub mod Writes
use text.Mathlib.Text.{◌==◌ as str_eq}
use onprest.Prelude.{
  ℕ, ◌+◌, ◌-◌, ◌≤◌, Bool, true, false, not, ◌&&◌, ◌||◌, List, [], ◌∷◌, ◌++◌, Option, none, some,
  String, Bytes, length, leb, ltb, if◌then◌else◌,
}
use onprest.Prelude.Dict.{Dict, lookup, insert, sum}

pub data Fault : Type 0 where
  not_found dependency_unavailable limit_exceeded validation_failed busy conflict : Fault
  execution_failed output_invalid permission_denied execution_timeout : Fault

pub record Owner : Type 0 where
  pub request_id : String
  pub caller_binding : String
  pub capability : String
  pub definition_hash : String
  pub auth_generation : String

unfoldable pub owner_eq : Owner → Owner → Bool
owner_eq a b =
    str_eq a.request_id b.request_id
    && (str_eq a.caller_binding b.caller_binding
        && (str_eq a.capability b.capability
            && (str_eq a.definition_hash b.definition_hash
                && str_eq a.auth_generation b.auth_generation)))

unfoldable pub has_zero : Bytes → Bool
has_zero [] = false
has_zero (b ∷ bs) = leb b 0 || has_zero bs

-- One word of `valid`; `valid_utf8` stands for utf8.ValidString and `bytes_of` for the bytes of a string.
unfoldable pub valid_word : (String → Bytes) → (Bytes → Bool) → String → Bool
valid_word bytes_of valid_utf8 s = not (
    leb (length (bytes_of s)) 0
    || (ltb 256 (length (bytes_of s)) || (not (valid_utf8 (bytes_of s)) || has_zero (bytes_of s))))

-- `valid`.
unfoldable pub owner_valid : (String → Bytes) → (Bytes → Bool) → Owner → Bool
owner_valid bytes_of valid_utf8 o =
    let ok = valid_word bytes_of valid_utf8 in
    ok o.request_id
    && (ok o.caller_binding && (ok o.capability && (ok o.definition_hash && ok o.auth_generation)))

-- The kinds `i` and `o`.
pub data Kind : Type 0 where
  input output : Kind

pub record Stage : Type 0 where
  pub owner : Owner
  pub kind : Kind
  pub name : String
  pub mime : String
  -- What was written and hashed; `size` is its length.
  pub content : Bytes
  pub reserved : ℕ
  pub is_open : Bool
  pub sealed : Bool
  pub ready : Bool
  pub retained : Bool
  pub retired : Bool
  pub write_failed : Bool
  pub readers : ℕ
  pub request : Option String
  pub scope : Option String
  pub expires : ℕ
  pub listed : Bool

pub data Phase : Type 0 where
  receiving ready_to_run executing aborted released : Phase

pub record Limits : Type 0 where
  pub max_file_bytes : ℕ
  pub max_total_bytes : ℕ
  pub max_files : ℕ

pub record Request : Type 0 where
  pub owner : Owner
  pub limits : Limits
  -- `File.MaxBytes` of the leaf that `schemaAt` finds in the capability's input.
  pub leaf_max : String → Option ℕ
  pub deadline : ℕ
  pub canceled : Bool
  pub stopped : Bool
  pub phase : Phase
  pub files : Dict String
  pub bytes : ℕ
  pub started : Bool

pub record OutputScope : Type 0 where
  pub owner : Owner
  pub limits : Limits
  pub ttl : ℕ
  pub stages : List String
  pub bytes : ℕ
  pub published : Bool

pub record Reader : Type 0 where
  pub stage : String
  pub canceled : Bool
  pub is_closed : Bool

pub record Reservation : Type 0 where
  pub bytes : ℕ
  pub is_released : Bool

pub record Options : Type 0 where
  pub quota_bytes : ℕ
  pub max_pending : ℕ
  pub max_objects : ℕ
  pub transfer_timeout : ℕ

pub record Store : Type 0 where
  pub options : Options
  pub used : ℕ
  pub readers : ℕ
  pub is_closed : Bool
  pub poisoned : Bool
  pub stages : Dict Stage
  pub requests : Dict Request
  -- The map `requests` of the source, from a request's ID to its pointer.
  pub pending : Dict String
  pub reservations : Dict Reservation
  pub scopes : Dict OutputScope
  pub leases : Dict Reader
  pub close_error : Option Fault

-- The store that `Open` returns once the directory is its own and empty.
abbrev pub new_store : Options → Store
new_store o = record {
  options = o;
  used = 0;
  readers = 0;
  is_closed = false;
  poisoned = false;
  stages = [];
  requests = [];
  pending = [];
  reservations = [];
  scopes = [];
  leases = [];
  close_error = none;
}

-- The check of the numbers in `Open`.
unfoldable pub options_ok : ℕ → Options → Bool
options_ok max_int o =
    leb 1 o.quota_bytes
    && (leb 1 o.max_pending
        && (leb (o.max_pending + o.max_pending + 3) max_int
            && (leb 1 o.max_objects
                && (ltb o.max_objects max_int
                    && (leb 1 o.transfer_timeout && leb o.transfer_timeout 300_000_000_000)))))

abbrev pub size_of : Stage → ℕ
size_of st = length st.content

-- What a stage takes of the quota, and of the number of objects.
abbrev pub charge : Stage → ℕ
charge st = if st.listed then size_of st + st.reserved else 0

abbrev pub counted : Stage → ℕ
counted st = if st.listed then 1 else 0

abbrev pub leased : Reservation → ℕ
leased r = if r.is_released then 0 else r.bytes

abbrev pub counted_lease : Reservation → ℕ
counted_lease r = if r.is_released then 0 else 1

-- `len(s.stages) + len(s.reservations)`.
abbrev pub objects : Store → ℕ
objects s = sum counted s.stages + sum counted_lease s.reservations

unfoldable pub available : Store → Option Fault
available s =
    if s.is_closed then some not_found else if s.poisoned then some dependency_unavailable else none

-- `reserveLocked`, of a number that is not negative.
unfoldable pub reserve_locked : ℕ → Store → Store × Option Fault
reserve_locked n s = elim (available s) [
  | some e ↦ (s, some e)
  | none ↦
      if ltb (s.options.quota_bytes - s.used) n
      then (s, some limit_exceeded)
      else (record s { used = s.used + n }, none)
]

-- `Reserve`, which gives the reservation the pointer `key`.
unfoldable pub reserve : String → ℕ → Store → Store × Option Fault
reserve key n s =
    if ltb n 1
    then (s, some validation_failed)
    else if leb s.options.max_objects (objects s)
    then (s, some busy)
    else let (t, refused) = reserve_locked n s in
      elim refused [
        | some e ↦ (t, some e)
        | none ↦ (
          record t {
            reservations = insert key (record { bytes = n; is_released = false }) t.reservations;
          },
          none,
        )
      ]

-- `Release` of a reservation.
unfoldable pub release : String → Store → Store
release key s = elim (lookup key s.reservations) [
  | none ↦ s
  | some r ↦ if r.is_released then s else record s {
    used = s.used - r.bytes;
    reservations = insert key (record r { is_released = true }) s.reservations;
  }
]
