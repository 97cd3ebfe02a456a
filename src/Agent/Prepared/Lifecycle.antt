-- ===== src/Agent/Prepared/Lifecycle.antt =====
-- Providers are closed once, the last one first, and not while a lease is held.
use mathlib.Core.List.{reverse}
use onprest.Prelude.{
  ℕ, zero, suc, ◌+◌, ◌-◌, ◌≤◌, ◌≡◌, refl, ap, ◌∙◌, Bool, true, false, ◌&&◌, List, [], ◌∷◌, ◌++◌,
  String, ◌==◌, arith, inl, inr, ◌⊎◌, Bool-cases, if◌then◌else◌,
}
use onprest.Agent.Prepared.{
  Closing, open_to_leases, waiting, done_closing, Prepared, is_closing, is_waiting, acquire,
  flag_at, set_flag, release, close_start, close_providers, empty_prepared,
}

unfoldable pub held : List Bool → ℕ
held [] = 0
held (b ∷ bs) = (if b then 0 else 1) + held bs

pub held-append : (bs : List Bool) → held (bs ++ false ∷ []) ≡ held bs + 1
unfolding held
held-append [] = refl
held-append (b ∷ bs) = ground (arith, held-append bs)

pub held-set_flag :
    (i : ℕ) (bs : List Bool) → flag_at i bs ≡ false → held (set_flag i bs) + 1 ≡ held bs
unfolding held set_flag flag_at
held-set_flag i [] h = cc
held-set_flag zero (b ∷ bs) h = rw h (omega arith)
held-set_flag (suc i) (b ∷ bs) h = ground (arith, held-set_flag i bs h)

-- What each phase of `Close` says of the providers.
unfoldable pub InPhase : Closing → ℕ → List String → List String → Type 0
InPhase done_closing active order closed = (active ≡ 0) × (closed ≡ reverse order)
InPhase _ active order closed = closed ≡ []

pub record IsValid (p : Prepared) : Type 0 where
  pub counted : p.active ≡ held p.released
  pub phase : InPhase p.closing p.active p.order p.closed

pub data Step (p : Prepared) : Prepared → Type 0 where
  acquired : (name : String) → Step p (acquire name p).0
  was_released : (i : ℕ) → Step p (release i p)
  began_close : Step p (close_start p)
  closed_providers : Step p (close_providers p)

pub data Reachable (order : List String) : Prepared → Type 0 where
  start : Reachable order (empty_prepared order)
  after : {p q : Prepared} → Reachable order p → Step p q → Reachable order q

-- While leases can be had, and while they are waited for, nothing is closed.
InPhase-active :
    (c : Closing) (active active' : ℕ) (order closed : List String)
    → active' ≤ active
    → InPhase c active order closed
    → InPhase c active' order closed
unfolding InPhase
InPhase-active open_to_leases active active' order closed h k = k
InPhase-active waiting active active' order closed h k = k
InPhase-active done_closing active active' order closed h k = (omega arith, k.1)

InPhase-open :
    (c : Closing) (active active' : ℕ) (order closed : List String)
    → is_closing c ≡ false
    → InPhase c active order closed
    → InPhase c active' order closed
unfolding InPhase
InPhase-open open_to_leases active active' order closed h k = k
InPhase-open waiting active active' order closed h k = cc
InPhase-open done_closing active active' order closed h k = cc

acquire-IsValid : (name : String) (p : Prepared) → IsValid p → IsValid (acquire name p).0
unfolding acquire
acquire-IsValid name p v = ground (
  arith,
  v,
  held-append p.released,
  InPhase-open p.closing p.active (p.active + 1) p.order p.closed,
)

release-IsValid : (i : ℕ) (p : Prepared) → IsValid p → IsValid (release i p)
unfolding release
release-IsValid i p v = elim (Bool-cases (flag_at i p.released)) [
  | inl gone ↦ rw (gone, release) v
  | inr here ↦
      rw (here, release)
        (record {
          counted = omega (arith, held-set_flag i p.released here, v.counted);
          phase =
              InPhase-active p.closing p.active (p.active - 1) p.order p.closed (omega arith)
                v.phase;
        })
]

close_start-IsValid : (p : Prepared) → IsValid p → IsValid (close_start p)
unfolding close_start InPhase
close_start-IsValid p v = elim (Bool-cases (is_closing p.closing)) [
  | inl on ↦ rw (on, close_start) v
  | inr off ↦
      rw (off, close_start)
        (record { counted = v.counted; phase = nothing_closed p.closing off v.phase })
]
  where
    nothing_closed :
        (c : Closing) → is_closing c ≡ false → InPhase c p.active p.order p.closed → p.closed ≡ []
    nothing_closed open_to_leases h k = k
    nothing_closed waiting h k = cc
    nothing_closed done_closing h k = cc

close_providers-IsValid : (p : Prepared) → IsValid p → IsValid (close_providers p)
unfolding close_providers InPhase
close_providers-IsValid p v = elim (Bool-cases (is_waiting p.closing && p.active == 0)) [
  | inr not_yet ↦ rw (not_yet, close_providers) v
  | inl now ↦
      rw (now, close_providers)
        (record {
          counted = v.counted;
          phase = (
            ground arith,
            ap (λ c. c ++ reverse p.order) (nothing_closed p.closing (ground arith) v.phase),
          );
        })
]
  where
    nothing_closed :
        (c : Closing) → is_waiting c ≡ true → InPhase c p.active p.order p.closed → p.closed ≡ []
    nothing_closed waiting h k = k
    nothing_closed open_to_leases h k = cc
    nothing_closed done_closing h k = cc

Step-IsValid : {p q : Prepared} → Step p q → IsValid p → IsValid q
Step-IsValid {p} (acquired name) v = acquire-IsValid name p v
Step-IsValid {p} (was_released i) v = release-IsValid i p v
Step-IsValid {p} began_close v = close_start-IsValid p v
Step-IsValid {p} closed_providers v = close_providers-IsValid p v

pub Reachable-IsValid : {order : List String} {p : Prepared} → Reachable order p → IsValid p
unfolding held InPhase
Reachable-IsValid start = record { counted = refl; phase = refl }
Reachable-IsValid (after r s) = Step-IsValid s (Reachable-IsValid r)

same_order : {p q : Prepared} → Step p q → q.order ≡ p.order
unfolding acquire release close_start close_providers
same_order {p} (acquired name) = ground arith
same_order {p} (was_released i) = ground arith
same_order {p} began_close = ground arith
same_order {p} closed_providers = ground arith

order_kept : {order : List String} {p : Prepared} → Reachable order p → p.order ≡ order
order_kept start = refl
order_kept (after r s) = same_order s ∙ order_kept r

-- In every state that leases and Close lead prepared executors to, in any order, either no provider
-- is closed, or no lease is active and every provider is closed exactly once, the last one prepared
-- first.
pub closed_once :
    (order : List String) (p : Prepared)
    → Reachable order p
    → (p.closed ≡ []) ⊎ ((p.active ≡ 0) × (p.closed ≡ reverse order))
unfolding InPhase
closed_once order p r = from_phase p.closing (Reachable-IsValid r).phase
  where
    from_phase :
        (c : Closing)
        → InPhase c p.active p.order p.closed
        → (p.closed ≡ []) ⊎ ((p.active ≡ 0) × (p.closed ≡ reverse order))
    from_phase open_to_leases k = inl k
    from_phase waiting k = inl k
    from_phase done_closing k = inr (k.0, k.1 ∙ ap reverse (order_kept r))
