-- ===== src/Ws/Scheduler.antt =====
-- internal/ws/scheduler.go. Every operation is the critical section under `mu`. A job is any type
-- `J`, an error any type `E`; the wake channel, which only ends a wait, is left out.
pub mod Invariant
pub mod Fairness
pub mod Backlog
use text.Mathlib.Text.{◌==◌ as str_eq}
use onprest.Prelude.{
  ℕ, zero, suc, ◌+◌, Bool, true, false, not, ◌&&◌, ◌||◌, List, [], ◌∷◌, ◌++◌, map, Option, none,
  some, String, ltb, leb, if◌then◌else◌, length,
}
use onprest.Prelude.Dict.{Dict, lookup, insert, remove}

pub record Scheduler (J E : Type 0) : Type 0 where
  pub control : List J
  pub normal : List J
  pub transfers : Dict (List J)
  pub order : List String
  pub failed : Option E
  pub last_normal : Bool

pub data PostError (E : Type 0) : Type 0 where
  failed_before : E → PostError E
  context_ended : E → PostError E
  control_queue_is_full request_queue_is_full transfer_queue_is_full : PostError E

-- `s.transfers[id]`: the zero value is the empty queue.
abbrev pub queue : {J : Type 0} → String → Dict (List J) → List J
queue id d = elim (lookup id d) [ none ↦ [] | some q ↦ q ]

unfoldable pub is_empty : {J : Type 0} → List J → Bool
is_empty [] = true
is_empty (j ∷ q) = false

unfoldable pub no_ids : List String → Bool
no_ids [] = true
no_ids (id ∷ ids) = false

module _ {J E : Type 0} where
  abbrev pub new_scheduler : Scheduler J E
  new_scheduler = record {
    control = [];
    normal = [];
    transfers = [];
    order = [];
    failed = none;
    last_normal = false;
  }

  -- `q` is the transfer's queue.
  unfoldable pub enqueue :
      String → J → List J → Scheduler J E → Scheduler J E × Option (PostError E)
  enqueue transfer j q s = if leb 5 (length q) then (s, some transfer_queue_is_full) else (
    record s {
      order = if is_empty q then s.order ++ transfer ∷ [] else s.order;
      transfers = insert transfer (q ++ j ∷ []) s.transfers;
    },
    none,
  )

  -- `Post`; `ended` is `s.ctx.Err()`.
  unfoldable pub post :
      Option E → Bool → String → J → Scheduler J E → Scheduler J E × Option (PostError E)
  post ended priority transfer j s = elim s.failed [
    | some e ↦ (s, some (failed_before e))
    | none ↦ elim ended [
      | some e ↦ (s, some (context_ended e))
      | none ↦
          if priority
          then if leb 256 (length s.control)
            then (s, some control_queue_is_full)
            else (record s { control = s.control ++ j ∷ [] }, none)
          else if str_eq transfer ""
          then if leb 128 (length s.normal)
            then (s, some request_queue_is_full)
            else (record s { normal = s.normal ++ j ∷ [] }, none)
          else enqueue transfer j (queue transfer s.transfers) s
    ]
  ]

  -- The job at the head of the first transfer's queue. `q[0]` panics on an empty queue: `none` with
  -- the state unchanged stands for that here, and `Ws.Scheduler.Invariant` excludes it.
  unfoldable pub take_transfer :
      String → List String → List J → Scheduler J E → Scheduler J E × Option J
  take_transfer id order [] s = (s, none)
  take_transfer id order (j ∷ []) s =
      (record s { last_normal = false; order = order; transfers = remove id s.transfers }, some j)
  take_transfer id order (j ∷ k ∷ q) s = (
    record s {
      last_normal = false;
      order = order ++ id ∷ [];
      transfers = insert id (k ∷ q) s.transfers;
    },
    some j,
  )

  -- The three cases of `next`, by the queues that they look at.
  unfoldable pub next_transfer : List String → Scheduler J E → Scheduler J E × Option J
  next_transfer [] s = (s, none)
  next_transfer (id ∷ order) s = take_transfer id order (queue id s.transfers) s

  unfoldable pub next_normal : List J → Scheduler J E → Scheduler J E × Option J
  next_normal [] s = next_transfer s.order s
  next_normal (j ∷ normal) s =
      if no_ids s.order || not s.last_normal
      then (record s { normal = normal; last_normal = true }, some j)
      else next_transfer s.order s

  unfoldable pub next_control : List J → Scheduler J E → Scheduler J E × Option J
  next_control [] s = next_normal s.normal s
  next_control (j ∷ control) s = (record s { control = control }, some j)

  unfoldable pub next : Scheduler J E → Scheduler J E × Option J
  next s = next_control s.control s

-- What a submitter hears of its job: the error, or `none` for success.
abbrev pub Delivery : Type 0 → Type 0 → Type 0
Delivery J E = List (J × Option E)

-- The deferred part of `Run`: every job that is left gets the failure.
drain : {J E : Type 0} → E → List J → Delivery J E
drain fail [] = []
drain fail (j ∷ q) = (j, some fail) ∷ drain fail q

drain_transfers : {J E : Type 0} → E → Dict (List J) → Delivery J E
drain_transfers fail [] = []
drain_transfers fail ((id, q) ∷ d) = drain fail q ++ drain_transfers fail d

pub data Round (J E : Type 0) : Type 0 where
  -- The loop goes on.
  again : Scheduler J E → Delivery J E → Round J E
  -- The queues are empty: the loop waits.
  idle : Scheduler J E → Round J E
  -- The loop returns, with the error that it returns.
  returned : Scheduler J E → Delivery J E → E → Round J E

module _ {J E : Type 0} (canceled : E) (is_cancellation : E → Bool) where
  pub finish : Scheduler J E → Scheduler J E × Delivery J E
  finish s =
      let fail : E = elim s.failed [ none ↦ canceled | some e ↦ e ] in
      (
        record s { control = []; normal = []; transfers = []; order = [] },
        drain fail s.control ++ (drain fail s.normal ++ drain_transfers fail s.transfers),
      )

  -- What running the job `j` comes to.
  ran : Scheduler J E → J → Option E → Round J E
  ran s j none = again s ((j, none) ∷ [])
  ran s j (some e) =
      if not (is_cancellation e)
      then returned (record s { failed = some e }) ((j, some e) ∷ []) e
      else again s ((j, some e) ∷ [])

  -- One round of the loop of `Run`; `ended` is `s.ctx.Err()`, `job_ended` is `j.ctx.Err()`, and
  -- `run` is what the job's function returns.
  run_job : Option E → (J → Option E) → (J → Option E) → Scheduler J E → J → Round J E
  run_job ended job_ended run s j = elim ended [
    | some e ↦ returned s ((j, some e) ∷ []) e
    | none ↦ elim (job_ended j) [ some e ↦ again s ((j, some e) ∷ []) | none ↦ ran s j (run j) ]
  ]

  pub round : Option E → (J → Option E) → (J → Option E) → Scheduler J E → Round J E
  round ended job_ended run s =
      let (s', taken) = next s in
      elim taken [
        | some j ↦ run_job ended job_ended run s' j
        | none ↦ elim ended [ some e ↦ returned s' [] e | none ↦ idle s' ]
      ]
