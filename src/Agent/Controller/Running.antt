-- ===== src/Agent/Controller/Running.antt =====
-- The controller over its prepared executors: how many calls run, and what their leases keep open.
use onprest.Prelude.{
  ℕ, ◌+◌, ◌≤◌, ◌<◌, ◌≡◌, ◌⊎◌, refl, sym, subst, Bool, true, false, List, [], ◌∷◌, length-append,
  Option, none, some, String, arith, inl, inr, Bool-cases, leb, length,
}
use onprest.Prelude.Dict.{Dict}
use onprest.Agent.RateLimit.{Limiter}
use onprest.Agent.Prepared.{
  LeaseError, Prepared, acquire, release, flag_at, close_start, close_providers, empty_prepared,
}
use onprest.Agent.Prepared.Lifecycle.{
  Step as LeaseStep, Reachable as PreparedReachable, Reachable-IsValid as prepared_is_valid, held,
  held-append, held-set_flag, closed_once,
}
use onprest.Agent.Controller.{
  Refusal, Call, Controller, new_controller, call_refusal, take_rate, drop_lease, is_running,
  without, leave, occupied, occupy, with_lease, leased, enter, admit,
}

-- The calls that run are counted, within the limit, and each has a lease.
pub record IsValid (order : List String) (c : Controller) : Type 0 where
  pub prepared_reachable : PreparedReachable order c.prepared
  pub counted : c.active ≡ length c.running
  pub within_limit : c.active ≤ c.max
  pub leases : length c.running ≤ held c.prepared.released

release-held : (i : ℕ) (p : Prepared) → held p.released ≤ held (release i p).released + 1
unfolding release
release-held i p = elim (Bool-cases (flag_at i p.released)) [
  | inl gone ↦ rw gone (omega arith)
  | inr here ↦ rw here (omega (arith, held-set_flag i p.released here))
]

rates-IsValid :
    (order : List String) (rates : Dict Limiter) (c : Controller)
    → IsValid order c
    → IsValid order (record c { rates = rates })
rates-IsValid order rates c v = record {
  prepared_reachable = v.prepared_reachable;
  counted = v.counted;
  within_limit = v.within_limit;
  leases = v.leases;
}

-- A controller that has one lease more than it has calls.
pub record HasLease (order : List String) (c : Controller) : Type 0 where
  pub valid : IsValid order c
  pub spare : length c.running < held c.prepared.released

drop_lease-IsValid :
    (order : List String) (i : ℕ) (c : Controller)
    → HasLease order c
    → IsValid order (drop_lease i c)
drop_lease-IsValid order i c h = record {
  prepared_reachable =
      PreparedReachable.after h.valid.prepared_reachable (LeaseStep.was_released i);
  counted = h.valid.counted;
  within_limit = h.valid.within_limit;
  leases = omega (arith, h.spare, release-held i c.prepared);
}

without-length :
    (i : ℕ) (js : List ℕ) → is_running i js ≡ true → length (without i js) + 1 ≡ length js
unfolding without is_running
without-length i [] h = cc
without-length i (j ∷ js) h = ground (arith, h, without-length i js)

leave-IsValid :
    (order : List String) (i : ℕ) (c : Controller) → IsValid order c → IsValid order (leave i c)
unfolding leave
leave-IsValid order i c v = elim (Bool-cases (is_running i c.running)) [
  | inr gone ↦ rw gone v
  | inl here ↦ rw here (record {
    prepared_reachable = PreparedReachable.after v.prepared_reachable (LeaseStep.was_released i);
    counted = omega (arith, v.counted, without-length i c.running here);
    within_limit = omega (arith, v.within_limit);
    leases = omega (arith, v.leases, without-length i c.running here, release-held i c.prepared);
  })
]

occupied-IsValid :
    (order : List String) (i : ℕ) (c : Controller)
    → HasLease order c
    → leb c.max c.active ≡ false
    → IsValid order (occupied i c)
occupied-IsValid order i c h room = record {
  prepared_reachable = h.valid.prepared_reachable;
  counted = omega (arith, h.valid.counted, length-append c.running (i ∷ []));
  within_limit = ground (arith, room);
  leases = omega (arith, h.spare, length-append c.running (i ∷ []));
}

occupy-IsValid :
    (order : List String) (call : Call) (i : ℕ) (allowed : Bool) (c : Controller)
    → HasLease order c
    → IsValid order (occupy call i allowed c).0
unfolding occupy
occupy-IsValid order call i allowed c h = ground (
  arith,
  drop_lease-IsValid order i c h,
  occupied-IsValid order i c h,
  λ (room : leb c.max c.active ≡ false).
      leave-IsValid order i (occupied i c) (occupied-IsValid order i c h room),
)

with_lease-IsValid :
    (order : List String) (now : ℕ) (call : Call) (i : ℕ) (refusal : Option Refusal)
    (c : Controller)
    → HasLease order c
    → IsValid order (with_lease now call i refusal c).0
unfolding with_lease
with_lease-IsValid order now call i (some e) c h = drop_lease-IsValid order i c h
with_lease-IsValid order now call i none c h =
    let (rates, allowed) = take_rate call.admitted call.capability now c.rates in
    occupy-IsValid order call i allowed (record c { rates = rates })
      (record { valid = rates-IsValid order rates c h.valid; spare = h.spare })

leased-IsValid :
    (order : List String) (now : ℕ) (call : Call) (hash : String) (c : Controller)
    (r : Prepared × (ℕ × Option LeaseError))
    → IsValid order c
    → PreparedReachable order r.0
    → (r.1.1 ≡ none → held r.0.released ≡ held c.prepared.released + 1)
    → IsValid order (leased now call hash c r).0
unfolding leased
leased-IsValid order now call hash c (p, (i, some e)) v reached more = v
leased-IsValid order now call hash c (p, (i, none)) v reached more =
    with_lease-IsValid order now call i (call_refusal call hash) (record c { prepared = p })
      (record {
        valid = record {
          prepared_reachable = reached;
          counted = v.counted;
          within_limit = v.within_limit;
          leases = omega (arith, v.leases, more refl);
        };
        spare = omega (arith, v.leases, more refl);
      })

acquire-held :
    (name : String) (p : Prepared)
    → (acquire name p).1.1 ≡ none
    → held (acquire name p).0.released ≡ held p.released + 1
unfolding acquire
acquire-held name p h = ground (arith, h, held-append p.released)

acquired-IsValid :
    (order : List String) (now : ℕ) (call : Call) (hash : String) (c : Controller)
    → IsValid order c
    → IsValid order (leased now call hash c (acquire call.capability c.prepared)).0
acquired-IsValid order now call hash c v =
    leased-IsValid order now call hash c (acquire call.capability c.prepared) v
      (PreparedReachable.after v.prepared_reachable (LeaseStep.acquired call.capability))
      (acquire-held call.capability c.prepared)

enter-IsValid :
    (order : List String) (now : ℕ) (call : Call) (hash : String) (c : Controller)
    → IsValid order c
    → IsValid order (enter now call hash c).0
unfolding enter
enter-IsValid order now call hash c v = ground (arith, v, acquired-IsValid order now call hash c v)

admit-IsValid :
    (order : List String) (now : ℕ) (call : Call) (hash : String) (c : Controller)
    → IsValid order c
    → IsValid order (admit now call hash c).0
unfolding admit
admit-IsValid order now call hash c v =
    ground (arith, v, rates-IsValid order (take_rate false call.capability now c.rates).0 c v)

prepared-IsValid :
    (order : List String) (p : Prepared) (c : Controller)
    → IsValid order c
    → PreparedReachable order p
    → p.released ≡ c.prepared.released
    → IsValid order (record c { prepared = p })
prepared-IsValid order p c v reached same = record {
  prepared_reachable = reached;
  counted = v.counted;
  within_limit = v.within_limit;
  leases = subst (λ bs. length c.running ≤ held bs) (sym same) v.leases;
}

pub data Step (c : Controller) : Controller → Type 0 where
  entered : (now : ℕ) (call : Call) (hash : String) → Step c (enter now call hash c).0
  was_admitted : (now : ℕ) (call : Call) (hash : String) → Step c (admit now call hash c).0
  left : (i : ℕ) → Step c (leave i c)
  closing_began : Step c (record c { prepared = close_start c.prepared })
  providers_closed : Step c (record c { prepared = close_providers c.prepared })

pub data Reachable (max : ℕ) (rates : Dict Limiter) (order : List String)
    : Controller → Type 0 where
  begun : Reachable max rates order (new_controller max rates (empty_prepared order))
  after : {c d : Controller} → Reachable max rates order c → Step c d → Reachable max rates order d

close_start-released : (p : Prepared) → (close_start p).released ≡ p.released
unfolding close_start
close_start-released p = ground arith

close_providers-released : (p : Prepared) → (close_providers p).released ≡ p.released
unfolding close_providers
close_providers-released p = ground arith

Step-IsValid :
    {c d : Controller} (order : List String) → Step c d → IsValid order c → IsValid order d
Step-IsValid {c} order (entered now call hash) v = enter-IsValid order now call hash c v
Step-IsValid {c} order (was_admitted now call hash) v = admit-IsValid order now call hash c v
Step-IsValid {c} order (left i) v = leave-IsValid order i c v
Step-IsValid {c} order closing_began v =
    prepared-IsValid order (close_start c.prepared) c v
      (PreparedReachable.after v.prepared_reachable LeaseStep.began_close)
      (close_start-released c.prepared)
Step-IsValid {c} order providers_closed v =
    prepared-IsValid order (close_providers c.prepared) c v
      (PreparedReachable.after v.prepared_reachable LeaseStep.closed_providers)
      (close_providers-released c.prepared)

Reachable-IsValid :
    {max : ℕ} {rates : Dict Limiter} {order : List String} {c : Controller}
    → Reachable max rates order c
    → IsValid order c
unfolding held
Reachable-IsValid begun = record {
  prepared_reachable = PreparedReachable.start;
  counted = refl;
  within_limit = omega arith;
  leases = omega arith;
}
Reachable-IsValid {max} {rates} {order} (after r s) = Step-IsValid order s (Reachable-IsValid r)

-- In every state that Execute, admit, the returns of calls and the closing of the prepared
-- executors reach, in any order, the active count is the number of calls that run and at most the
-- limit, and while it is not zero no provider is closed.
pub running_keeps_open :
    (max : ℕ) (rates : Dict Limiter) (order : List String) (c : Controller)
    → Reachable max rates order c
    → (c.active ≡ length c.running)
      × ((c.active ≤ c.max) × ((c.active ≡ 0) ⊎ (c.prepared.closed ≡ [])))
running_keeps_open max rates order c r =
    let v = Reachable-IsValid r in
    (
      v.counted,
      (
        v.within_limit,
        elim (closed_once order c.prepared v.prepared_reachable) [
          | inl none_closed ↦ inr none_closed
          | inr (idle, all) ↦ inl (
              omega (
                arith,
                idle,
                v.counted,
                v.leases,
                (prepared_is_valid v.prepared_reachable).counted,
              ))
        ],
      ),
    )
