-- ===== src/Agent/Artifacts/Leases.antt =====
-- The open readers of a stage, and the changes that keep them counted.
use text.Mathlib.Text.{◌==◌ as str_eq}
use text.Mathlib.TextEquality.{eq_iff}
use onprest.Prelude.{
  ℕ, ◌+◌, ◌-◌, ◌≤◌, ◌≡◌, ap, subst, true, false, not, ◌&&◌, Bool-cases, inl, inr, if◌then◌else◌,
  Option, none, some, String, arith,
}
use onprest.Prelude.Dict.{Dict, lookup, insert, lookup-insert, sum, sum-insert_old, sum-insert-le}
use onprest.Agent.Artifacts.{Stage, Reader}

-- An open reader of a stage counts.
abbrev pub reads : String → Reader → ℕ
reads id r = if str_eq r.stage id && not r.is_closed then 1 else 0

abbrev pub readers_of : Option Stage → ℕ
readers_of none = 0
readers_of (some st) = st.readers

-- The open readers of every stage are among those that it counts.
abbrev pub AreCounted : Dict Reader → Dict Stage → Type 0
AreCounted leases stages = (id : String) → sum (reads id) leases ≤ readers_of (lookup id stages)

eq_of : (a b : String) → str_eq a b ≡ true → a ≡ b
eq_of a b h = ground (arith, h, eq_iff a b)

pub insert-AreCounted :
    (id : String) (st st' : Stage) (leases : Dict Reader) (stages : Dict Stage)
    → AreCounted leases stages
    → lookup id stages ≡ some st
    → st.readers ≤ st'.readers
    → AreCounted leases (insert id st' stages)
insert-AreCounted id st st' leases stages counts e more k = elim (Bool-cases (str_eq id k)) [
  | inl same ↦
      rw (lookup-insert id k st' stages, same)
        (omega (
          arith,
          more,
          subst (λ j. sum (reads j) leases ≤ readers_of (lookup id stages)) (eq_of id k same)
              (counts id),
          ap readers_of e,
        ))
  | inr other ↦ rw (lookup-insert id k st' stages, other) (counts k)
]

pub insert_new-AreCounted :
    (id : String) (st : Stage) (leases : Dict Reader) (stages : Dict Stage)
    → AreCounted leases stages
    → lookup id stages ≡ none
    → AreCounted leases (insert id st stages)
insert_new-AreCounted id st leases stages counts e k = elim (Bool-cases (str_eq id k)) [
  | inl same ↦
      rw (lookup-insert id k st stages, same)
        (omega (
          arith,
          subst (λ j. sum (reads j) leases ≤ readers_of (lookup id stages)) (eq_of id k same)
              (counts id),
          ap readers_of e,
        ))
  | inr other ↦ rw (lookup-insert id k st stages, other) (counts k)
]

-- A reader opens, and the stage counts one more.
pub opened-AreCounted :
    (key id : String) (st : Stage) (leases : Dict Reader) (stages : Dict Stage)
    → AreCounted leases stages
    → lookup id stages ≡ some st
    → AreCounted
        (insert key (record { stage = id; canceled = false; is_closed = false }) leases)
        (insert id (record st { readers = st.readers + 1 }) stages)
opened-AreCounted key id st leases stages counts e k =
    let more =
      sum-insert-le (reads k) key (record { stage = id; canceled = false; is_closed = false })
        leases in
    elim (Bool-cases (str_eq id k)) [
      | inl same ↦
          rw (lookup-insert id k (record st { readers = st.readers + 1 }) stages, same)
            (ground (
              arith,
              more,
              same,
              subst (λ j. sum (reads j) leases ≤ readers_of (lookup id stages)) (eq_of id k same)
                  (counts id),
              ap readers_of e,
            ))
      | inr other ↦
          rw (lookup-insert id k (record st { readers = st.readers + 1 }) stages, other)
            (ground (arith, more, other, counts k))
    ]

-- An open reader closes, and the stage counts one less.
pub closed-AreCounted :
    (key : String) (r : Reader) (st : Stage) (leases : Dict Reader) (stages : Dict Stage)
    → AreCounted leases stages
    → lookup r.stage stages ≡ some st
    → lookup key leases ≡ some r
    → r.is_closed ≡ false
    → AreCounted
        (insert key (record r { canceled = true; is_closed = true }) leases)
        (insert r.stage (record st { readers = st.readers - 1 }) stages)
closed-AreCounted key r st leases stages counts e h live k =
    let same_sum =
      sum-insert_old (reads k) key (record r { canceled = true; is_closed = true }) r leases h in
    elim (Bool-cases (str_eq r.stage k)) [
      | inl same ↦
          rw (lookup-insert r.stage k (record st { readers = st.readers - 1 }) stages, same)
            (ground (
              arith,
              same_sum,
              same,
              live,
              subst (λ j. sum (reads j) leases ≤ readers_of (lookup r.stage stages))
                  (eq_of r.stage k same) (counts r.stage),
              ap readers_of e,
            ))
      | inr other ↦
          rw (lookup-insert r.stage k (record st { readers = st.readers - 1 }) stages, other)
            (ground (arith, same_sum, other, counts k))
    ]

-- A canceled reader still counts.
pub canceled-AreCounted :
    (key : String) (r : Reader) (leases : Dict Reader) (stages : Dict Stage)
    → AreCounted leases stages
    → lookup key leases ≡ some r
    → AreCounted (insert key (record r { canceled = true }) leases) stages
canceled-AreCounted key r leases stages counts h k =
    omega (arith, counts k, sum-insert_old (reads k) key (record r { canceled = true }) r leases h)
