-- ===== src/Ws/Scheduler/Invariant.antt =====
-- The scheduler's queues keep their bounds, and `order` lists each waiting transfer once.
use text.Mathlib.Text.{◌==◌ as str_eq}
use text.Mathlib.TextEquality.{eq_iff}
use onprest.Prelude.{
  ℕ, ◌+◌, ◌≤◌, ◌<◌, ◌≡◌, refl, ap, inl, inr, Bool, List, [], ◌∷◌, ◌++◌, Option, none, some, String,
  arith, if◌then◌else◌, length, length-append, leb, ◌⊎◌, ◌||◌, not, Option-cases, Bool-cases,
}
use onprest.Prelude.Dict.{
  Dict, lookup, Distinct, All, lookup-insert, lookup-remove, insert-Distinct, remove-Distinct,
  All-lookup, All-insert, All-remove,
}
use onprest.Ws.Scheduler.{
  Scheduler, new_scheduler, queue, is_empty, no_ids, enqueue, post, take_transfer, next_transfer,
  next_normal, next_control, next,
}

unfoldable pub occurrences : String → List String → ℕ
occurrences id [] = 0
occurrences id (k ∷ ids) = (if str_eq k id then 1 else 0) + occurrences id ids

occurrences-append :
    (id : String) (a b : List String)
    → occurrences id (a ++ b) ≡ occurrences id a + occurrences id b
unfolding occurrences
occurrences-append id [] b = omega arith
occurrences-append id (k ∷ a) b = omega (arith, occurrences-append id a b)

abbrev pub present : {V : Type 0} → Option V → ℕ
present none = 0
present (some v) = 1

abbrev pub IsWaiting : {J : Type 0} → List J → Type 0
IsWaiting q = (0 < length q) × (length q ≤ 5)

-- What the invariant says of a transfer's queue.
abbrev pub Stored : {J : Type 0} → String → List J → Dict (List J) → Type 0
Stored id q d = ((q ≡ []) × (lookup id d ≡ none)) ⊎ (IsWaiting q × (lookup id d ≡ some q))

module _ {J E : Type 0} where
  pub record IsValid (s : Scheduler J E) : Type 0 where
    pub control_fits : length s.control ≤ 256
    pub normal_fits : length s.normal ≤ 128
    pub distinct : Distinct s.transfers
    pub waiting : All IsWaiting s.transfers
    pub listed : (id : String) → occurrences id s.order ≡ present (lookup id s.transfers)

  pub new_scheduler-IsValid : IsValid (new_scheduler {J = J} {E = E})
  unfolding occurrences lookup
  new_scheduler-IsValid = record {
    control_fits = omega arith;
    normal_fits = omega arith;
    distinct = tt;
    waiting = tt;
    listed = λ id. refl;
  }

  module _ (s : Scheduler J E) (v : IsValid s) (id : String) where
    -- A transfer that is not in the map has no place in the order, and one that is waits.
    queue_waits : (q : List J) → lookup id s.transfers ≡ some q → IsWaiting q
    queue_waits q e = All-lookup IsWaiting id q s.transfers v.waiting e

  pub stored :
      (s : Scheduler J E) (id : String) → IsValid s → Stored id (queue id s.transfers) s.transfers
  stored s id v = elim (Option-cases (lookup id s.transfers)) [
    | inl absent ↦ rw (absent, queue) (inl (refl, refl))
    | inr (q, e) ↦ rw (e, queue) (inr (queue_waits s v id q e, refl))
  ]

  enqueue-IsValid :
      (id : String) (j : J) (q : List J) (s : Scheduler J E)
      → Stored id q s.transfers
      → IsValid s
      → IsValid (enqueue id j q s).0
  unfolding enqueue is_empty occurrences
  enqueue-IsValid id j q s held v = elim (Bool-cases (leb 5 (length q))) [
    | inl full ↦ rw full v
    | inr room ↦ rw room (record {
      control_fits = v.control_fits;
      normal_fits = v.normal_fits;
      distinct = insert-Distinct id (q ++ j ∷ []) s.transfers v.distinct;
      waiting =
          All-insert IsWaiting id (q ++ j ∷ []) s.transfers v.waiting
            (ground (arith, length-append q (j ∷ [])));
      listed = λ k. ground (
        arith,
        v.listed k,
        occurrences-append k s.order (id ∷ []),
        eq_iff id k,
        lookup-insert id k (q ++ j ∷ []) s.transfers,
      );
    })
  ]

  -- Post keeps the scheduler valid, whatever it is given: at most 256 control jobs and 128 normal
  -- ones, one to five jobs for each transfer in the map, and each transfer in the map once in the
  -- order and no other.
  pub post-IsValid :
      (ended : Option E) (priority : Bool) (id : String) (j : J) (s : Scheduler J E)
      → IsValid s
      → IsValid (post ended priority id j s).0
  unfolding post
  post-IsValid ended priority id j s v =
      let below = enqueue-IsValid id j (queue id s.transfers) s (stored s id v) v in
      ground (arith, below, length-append s.control (j ∷ []), length-append s.normal (j ∷ []))

  -- A transfer in the order has a queue, so `q[0]` is there.
  pub head_waits :
      (id : String) (ids : List String) (s : Scheduler J E)
      → s.order ≡ id ∷ ids
      → IsValid s
      → IsWaiting (queue id s.transfers) × (lookup id s.transfers ≡ some (queue id s.transfers))
  unfolding occurrences
  head_waits id ids s e v = elim (stored s id v) [
    | inl (empty, absent) ↦ ground (arith, v.listed id, ap (occurrences id) e, eq_iff id id)
    | inr held ↦ held
  ]

  take_transfer-IsValid :
      (id : String) (order : List String) (q : List J) (s : Scheduler J E)
      → s.order ≡ id ∷ order
      → lookup id s.transfers ≡ some q
      → IsValid s
      → IsValid (take_transfer id order q s).0
  unfolding take_transfer occurrences
  take_transfer-IsValid id order [] s e l v = v
  take_transfer-IsValid id order (j ∷ []) s e l v = record {
    control_fits = v.control_fits;
    normal_fits = v.normal_fits;
    distinct = remove-Distinct id s.transfers v.distinct;
    waiting = All-remove IsWaiting id s.transfers v.waiting;
    listed = λ k.
        ground
          (arith, v.listed k, ap (occurrences k) e, eq_iff id k, lookup-remove id k s.transfers);
  }
  take_transfer-IsValid id order (j ∷ k ∷ q) s e l v = record {
    control_fits = v.control_fits;
    normal_fits = v.normal_fits;
    distinct = insert-Distinct id (k ∷ q) s.transfers v.distinct;
    waiting =
        All-insert IsWaiting id (k ∷ q) s.transfers v.waiting
          (omega (arith, queue_waits s v id (j ∷ k ∷ q) l));
    listed = λ i. ground (
      arith,
      v.listed i,
      ap (occurrences i) e,
      eq_iff id i,
      occurrences-append i order (id ∷ []),
      lookup-insert id i (k ∷ q) s.transfers,
    );
  }

  next_transfer-IsValid :
      (ids : List String) (s : Scheduler J E)
      → s.order ≡ ids
      → IsValid s
      → IsValid (next_transfer ids s).0
  unfolding next_transfer
  next_transfer-IsValid [] s e v = v
  next_transfer-IsValid (id ∷ ids) s e v =
      take_transfer-IsValid id ids (queue id s.transfers) s e (head_waits id ids s e v).1 v

  next_normal-IsValid :
      (normal : List J) (s : Scheduler J E)
      → s.normal ≡ normal
      → IsValid s
      → IsValid (next_normal normal s).0
  unfolding next_normal
  next_normal-IsValid [] s e v = next_transfer-IsValid s.order s refl v
  next_normal-IsValid (j ∷ normal) s e v = elim (Bool-cases (no_ids s.order || not s.last_normal)) [
    | inl now ↦ rw now (record {
      control_fits = v.control_fits;
      normal_fits = omega (arith, v.normal_fits, ap length e);
      distinct = v.distinct;
      waiting = v.waiting;
      listed = v.listed;
    })
    | inr later ↦ rw later (next_transfer-IsValid s.order s refl v)
  ]

  next_control-IsValid :
      (control : List J) (s : Scheduler J E)
      → s.control ≡ control
      → IsValid s
      → IsValid (next_control control s).0
  unfolding next_control
  next_control-IsValid [] s e v = next_normal-IsValid s.normal s refl v
  next_control-IsValid (j ∷ control) s e v = record {
    control_fits = omega (arith, v.control_fits, ap length e);
    normal_fits = v.normal_fits;
    distinct = v.distinct;
    waiting = v.waiting;
    listed = v.listed;
  }

  -- Taking a job with next keeps the scheduler valid.
  pub next-IsValid : (s : Scheduler J E) → IsValid s → IsValid (next s).0
  unfolding next
  next-IsValid s v = next_control-IsValid s.control s refl v
