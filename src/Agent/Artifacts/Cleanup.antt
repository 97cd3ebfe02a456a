-- ===== src/Agent/Artifacts/Cleanup.antt =====
-- The end of stages and readers in internal/agent/artifacts/store.go and input.go: `cleanupLocked`,
-- `releaseSlotLocked` and `closeLocked`. `Disk` says for a stage or a reader whether its file is closed and
-- removed.
use text.Mathlib.Text.{◌==◌ as str_eq}
use onprest.Prelude.{
  ◌+◌, ◌-◌, Bool, true, false, not, ◌&&◌, ◌||◌, [], ◌∷◌, Option, none, some, String, ltb,
  if◌then◌else◌,
}
use onprest.Prelude.Dict.{Dict, lookup, insert, remove}
use onprest.Agent.Artifacts.{Fault, execution_failed, Stage, Reader, Store, size_of}
use onprest.Agent.Artifacts.Stages.{poison, put, on_stage, is_released}

pub record Disk : Type 0 where
  pub closes : String → Bool
  pub removes : String → Bool
  pub closes_reader : String → Bool

unfoldable pub any_listed : Dict String → Dict Stage → Bool
any_listed [] stages = false
any_listed ((pointer, id) ∷ files) stages = elim (lookup id stages) [
  | none ↦ any_listed files stages
  | some st ↦ st.listed || any_listed files stages
]

abbrev pub is_key : String → Option String → Bool
is_key k none = false
is_key k (some j) = str_eq j k

-- `releaseSlotLocked`.
unfoldable pub release_slot : Option String → Store → Store
release_slot none s = s
release_slot (some k) s = elim (lookup k s.requests) [
  | none ↦ s
  | some r ↦
      if not (is_released r.phase) || any_listed r.files s.stages
      then s
      else if is_key k (lookup r.owner.request_id s.pending)
      then record s { pending = remove r.owner.request_id s.pending }
      else s
]

-- `cleanupLocked`.
unfoldable pub cleanup : Disk → String → Store → Store × Option Fault
cleanup disk id s =
    on_stage id
      (λ st.
        if not st.retired || ltb 0 st.readers
        then (s, none)
        else if st.is_open && not (disk.closes id)
        then (poison s, some execution_failed)
        else if not st.listed
        then (put id (record st { is_open = false }) s, none)
        else if not (disk.removes id)
        then (poison (put id (record st { is_open = false }) s), some execution_failed)
        else (
          release_slot st.request (record s {
            used = s.used - (size_of st + st.reserved);
            stages =
                insert id (record st { is_open = false; reserved = 0; listed = false }) s.stages;
          }),
          none,
        ))
      s

-- `closeLocked` of a reader that is open.
unfoldable pub close_open : Disk → String → Reader → Store → Store × Option Fault
close_open disk key r s =
    if not (disk.closes_reader key)
    then (
      poison (record s { leases = insert key (record r { canceled = true }) s.leases }),
      some execution_failed,
    )
    else on_stage r.stage
        (λ st. cleanup disk r.stage (record s {
          readers = s.readers - 1;
          stages = insert r.stage (record st { readers = st.readers - 1 }) s.stages;
          leases = insert key (record r { canceled = true; is_closed = true }) s.leases;
        }))
        s

unfoldable pub close_found : Disk → String → Store → Option Reader → Store × Option Fault
close_found disk key s none = (s, none)
close_found disk key s (some r) = if r.is_closed then (s, none) else close_open disk key r s

-- `closeLocked` of a reader.
unfoldable pub close_reader : Disk → String → Store → Store × Option Fault
close_reader disk key s = close_found disk key s (lookup key s.leases)
