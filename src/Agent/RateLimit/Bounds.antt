-- ===== src/Agent/RateLimit/Bounds.antt =====
-- The bucket against its specification.
use Prim.Native.Nat.{min}
use native.Mathlib.Nat.{div-add-mod, mod-lt, le-div_iff_mul-le}
use onprest.Prelude.{
  ℕ, ◌+◌, ◌-◌, ◌*◌, ◌/◌, ◌≤◌, ◌<◌, ◌≡◌, Option, none, some, String, arith, if◌then◌else◌,
}
use onprest.Agent.RateLimit.{
  Limiter, RateLimitDef, max_int64, wrapped, lint, new_limiter, fill_after, refilled, charge, take,
}

pub record IsValid (b : Limiter) : Type 0 where
  pub within : b.credit ≤ b.capacity
  pub fits : b.capacity ≤ max_int64
  pub refills : 0 < b.refill
  pub costs : 0 < b.cost
  pub holds_one : b.cost ≤ b.capacity

-- The ceiling of the division.
scaled : (a b r : ℕ) → a ≤ b → a * r ≤ b * r
scaled a b r h = grind arith

fill_after_le : (d r e : ℕ) → 0 < r → fill_after d r ≤ e → d ≤ e * r
unfolding fill_after
fill_after_le d r e h k =
    ground (arith, div-add-mod d r, mod-lt d h, scaled (d / r) e r, scaled (d / r + 1) e r)

fill_after_lt : (d r e : ℕ) → 0 < r → e < fill_after d r → e * r < d
unfolding fill_after
fill_after_lt d r e h k =
    ground (arith, div-add-mod d r, mod-lt d h, scaled e (d / r) r, scaled (e + 1) (d / r) r)

wrapped_small : (n : ℕ) → n ≤ max_int64 → wrapped n ≡ n
wrapped_small n h = omega (arith, h)

-- The credit that a refill of a valid bucket computes, with its products and sums wrapped at 64
-- bits, is exactly the credit and the refill of the time since the last call, up to the capacity.
pub refilled-min :
    (b : Limiter) (now : ℕ)
    → IsValid b
    → (refilled b now).credit ≡ min b.capacity (b.credit + (now - b.last) * b.refill)
unfolding refilled
refilled-min b now v = ground (
  arith,
  v,
  fill_after_le (b.capacity - b.credit) b.refill (now - b.last),
  fill_after_lt (b.capacity - b.credit) b.refill (now - b.last),
  wrapped_small ((now - b.last) * b.refill),
  wrapped_small (b.credit + (now - b.last) * b.refill),
)

lint_facts :
    (parse_duration : String → Option ℕ) (def : RateLimitDef) (per : ℕ)
    → parse_duration def.per ≡ some per
    → lint parse_duration def ≡ none
    → (0 < def.requests) × (0 < per) × (0 < def.burst) × (def.burst ≤ max_int64 / per)
unfolding lint
lint_facts parse_duration def per e h = let passed = rw (e, lint) at h in ground arith

-- A definition that lint accepts makes a valid bucket: with positive cost and refill, a capacity
-- that holds one request and stays within int64.
pub new_limiter-IsValid :
    (parse_duration : String → Option ℕ) (def : RateLimitDef) (per now : ℕ)
    → parse_duration def.per ≡ some per
    → lint parse_duration def ≡ none
    → IsValid (new_limiter def per now)
unfolding new_limiter
new_limiter-IsValid parse_duration def per now e h =
    let (r, p, b, fits) = lint_facts parse_duration def per e h in
    let capacity = (le-div_iff_mul-le p).0 fits in
    let one : 1 * per ≤ def.burst * per = scaled 1 def.burst per b in
    let kept = wrapped_small (def.burst * per) capacity in omega arith

-- A refill changes the credit and the time alone.
pub refilled_keeps :
    (b : Limiter) (now : ℕ)
    → let r = refilled b now in
      (r.capacity ≡ b.capacity) × (r.cost ≡ b.cost) × (r.refill ≡ b.refill)
unfolding refilled
refilled_keeps b now = ground arith

refilled_last :
    (b : Limiter) (now : ℕ)
    → (b.last ≤ (refilled b now).last) × ((refilled b now).last - b.last ≡ now - b.last)
unfolding refilled
refilled_last b now = ground arith

-- A call of take keeps the bucket valid, at any time.
pub take-IsValid : (b : Limiter) (now : ℕ) → IsValid b → IsValid (take b now).0
unfolding take charge
take-IsValid b now v = ground (arith, refilled-min b now v, refilled_keeps b now)

-- One call: what it spends is covered by the credit and the time.
pub take_spends :
    (b : Limiter) (now : ℕ)
    → IsValid b
    → let (b', allowed, logged) = take b now in
      ((if allowed then b.cost else 0) + b'.credit ≤ b.credit + (b'.last - b.last) * b.refill)
      × (b.last ≤ b'.last)
      × (b'.cost ≡ b.cost)
      × (b'.refill ≡ b.refill)
unfolding take charge
take_spends b now v =
    ground (arith, refilled-min b now v, refilled_keeps b now, refilled_last b now)
