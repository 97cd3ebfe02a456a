-- ===== src/Ws/Scheduler/Backlog.antt =====
-- No job is lost in the queues or handed out twice, by count.
use text.Mathlib.Text.{◌==◌ as str_eq}
use onprest.Prelude.{
  ℕ, ◌+◌, ◌≡◌, ap, Bool, List, [], ◌∷◌, Option, none, some, String, inl, inr, arith, length,
  length-append, ◌++◌, leb, Option-cases, Bool-cases,
}
use onprest.Prelude.Dict.{sum, sum-insert_new, sum-insert_old}
use onprest.Ws.Scheduler.{Scheduler, queue, PostError, enqueue, post}
use onprest.Ws.Scheduler.Invariant.{IsValid, Stored, stored, present}

-- The jobs that a call which ends so adds.
abbrev pub accepted : {E : Type 0} → Option (PostError E) → ℕ
accepted none = 1
accepted (some e) = 0

module _ {J E : Type 0} where
  -- The jobs that wait.
  abbrev pub backlog : Scheduler J E → ℕ
  backlog s = length s.control + length s.normal + sum length s.transfers

  abbrev Conserves : Scheduler J E → Scheduler J E × Option J → Type 0
  Conserves s r = present r.1 + backlog r.0 ≡ backlog s

  enqueue_conserves :
      (id : String) (j : J) (q : List J) (s : Scheduler J E)
      → Stored id q s.transfers
      → backlog (enqueue id j q s).0 ≡ backlog s + accepted (enqueue id j q s).1
  unfolding enqueue
  enqueue_conserves id j q s held = elim (Bool-cases (leb 5 (length q))) [
    | inl full ↦ rw (full, enqueue) (omega arith)
    | inr room ↦
        rw (room, enqueue)
          (elim held [
            | inl (empty, absent) ↦ omega (
              arith,
              sum-insert_new length id (q ++ j ∷ []) s.transfers absent,
              length-append q (j ∷ []),
              ap length empty,
            )
            | inr (waits, l) ↦ omega (
              arith,
              sum-insert_old length id (q ++ j ∷ []) q s.transfers l,
              length-append q (j ∷ []),
            )
          ])
  ]

  -- A call of Post on a valid scheduler adds one job to the queues where it succeeds, and none
  -- where it fails.
  pub post_conserves :
      (ended : Option E) (priority : Bool) (id : String) (j : J) (s : Scheduler J E)
      → IsValid s
      → backlog (post ended priority id j s).0 ≡ backlog s + accepted (post ended priority id j s).1
  unfolding post
  post_conserves ended priority id j s v = elim (Option-cases s.failed) [
    | inr (e, f) ↦ rw (f, post) (omega arith)
    | inl f ↦ elim (Option-cases ended) [
      | inr (e, d) ↦ rw (f, d, post) (omega arith)
      | inl d ↦ elim (Bool-cases priority) [
        | inl p ↦ elim (Bool-cases (leb 256 (length s.control))) [
          | inl full ↦ rw (f, d, p, full, post) (omega arith)
          | inr room ↦ rw (f, d, p, room, post) (omega (arith, length-append s.control (j ∷ [])))
        ]
        | inr p ↦ elim (Bool-cases (str_eq id "")) [
          | inr t ↦
              rw (f, d, p, t, post)
                (enqueue_conserves id j (queue id s.transfers) s (stored s id v))
          | inl t ↦ elim (Bool-cases (leb 128 (length s.normal))) [
            | inl full ↦ rw (f, d, p, t, full, post) (omega arith)
            | inr room ↦
                rw (f, d, p, t, room, post) (omega (arith, length-append s.normal (j ∷ [])))
          ]
        ]
      ]
    ]
  ]
