-- ===== src/Agent/Artifacts/Saves.antt =====
-- What Save of internal/agent/artifacts/save.go does to its store where the cleanup after it fails: the
-- usage that it measured is charged, without a look at the quota, and the store is poisoned.
use onprest.Prelude.{
  ℕ, ◌+◌, ◌-◌, ◌^◌, ◌≡◌, true, false, ◌&&◌, List, [], ◌∷◌, Option, none, some, String, arith, ltb,
  leb, inl, inr, refl, if◌then◌else◌, Bool-cases,
}
use onprest.Prelude.Dict.{lookup, insert, sum-insert_old}
use onprest.Agent.Artifacts.{Reservation, Store, leased, counted_lease}
use onprest.Agent.Artifacts.Stages.{poison}
use onprest.Agent.Artifacts.Valid.{IsValid, poison-IsValid}

-- `math.MaxInt64`.
abbrev pub max_int64 : ℕ
max_int64 = 2 ^ 63 - 1

-- The larger of what an entry reserved and the size that `Inspect` finds, where it finds one.
abbrev pub entry_size : ℕ → Option ℕ → ℕ
entry_size reserved none = reserved
entry_size reserved (some actual) = if ltb reserved actual then actual else reserved

-- The loop over the entries of the manifest, from `total`.
unfoldable pub actual_total : ℕ → List (ℕ × Option ℕ) → ℕ
actual_total total [] = total
actual_total total ((reserved, actual) ∷ entries) =
    let n = entry_size reserved actual in
    let onward = actual_total (total + n) entries in
    if ltb (max_int64 - total) n then max_int64 else onward

-- The part under the store's lock, of the reservation `r` at `key`.
unfoldable pub charge_growth : String → Reservation → ℕ → Store → Store
charge_growth key r total s =
    if ltb r.bytes total && leb (total - r.bytes) (max_int64 - s.used)
    then record s {
      used = s.used + (total - r.bytes);
      reservations = insert key (record r { bytes = total }) s.reservations;
      poisoned = true;
    }
    else poison s

unfoldable pub settle_save : String → Reservation → ℕ → List (ℕ × Option ℕ) → Store → Store
settle_save key r manifest entries s = charge_growth key r (actual_total manifest entries) s

pub settle_save-IsValid :
    (key : String) (r : Reservation) (manifest : ℕ) (entries : List (ℕ × Option ℕ)) (s : Store)
    → IsValid s
    → lookup key s.reservations ≡ some r
    → r.is_released ≡ false
    → IsValid (settle_save key r manifest entries s)
unfolding settle_save charge_growth
settle_save-IsValid key r manifest entries s v e held =
    let total = actual_total manifest entries in
    elim (Bool-cases (ltb r.bytes total && leb (total - r.bytes) (max_int64 - s.used))) [
      | inr same ↦ rw (same, charge_growth) (poison-IsValid s v)
      | inl grown ↦
          rw (grown, charge_growth)
            (record {
              usage = ground (
                arith,
                v.usage,
                held,
                grown,
                sum-insert_old leased key (record r { bytes = total }) r s.reservations e,
              );
              within_quota = inl refl;
              few_objects = ground (
                arith,
                v.few_objects,
                held,
                sum-insert_old counted_lease key (record r { bytes = total }) r s.reservations e,
              );
              few_readers = v.few_readers;
              few_pending = v.few_pending;
              stages_valid = v.stages_valid;
              requests_valid = v.requests_valid;
              scopes_valid = v.scopes_valid;
              readers_counted = v.readers_counted;
            })
    ]
