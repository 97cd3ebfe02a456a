-- ===== src/Agent/RateLimit.antt =====
-- internal/agent/rate_limit.go: the token bucket of a capability. A time is the number of
-- nanoseconds since some start, and no time before it occurs. The products and sums of `int64` are
-- wrapped at 64 bits.
pub mod Bounds
pub mod History
use text.Mathlib.Text.{◌==◌ as str_eq}
use onprest.Prelude.{
  ℕ, ◌+◌, ◌-◌, ◌*◌, ◌/◌, ◌%◌, ◌^◌, Bool, true, false, not, ◌||◌, Option, none, some, String, ltb,
  leb, ◌==◌, if◌then◌else◌,
}

-- `rateLimitRejectionLogInterval`, a minute.
abbrev pub rejection_log_interval : ℕ
rejection_log_interval = 60_000_000_000

-- `math.MaxInt64`.
abbrev pub max_int64 : ℕ
max_int64 = 2 ^ 63 - 1

-- The 64 bits of a product or a sum; below 2^63 they are the value as an `int64`.
abbrev pub wrapped : ℕ → ℕ
wrapped n = n % 2 ^ 64

pub record RateLimitDef : Type 0 where
  pub requests : ℕ
  pub per : String
  pub burst : ℕ

pub record Limiter : Type 0 where
  pub credit : ℕ
  pub capacity : ℕ
  pub cost : ℕ
  pub refill : ℕ
  pub last : ℕ
  pub last_rejection_log : ℕ
  pub rejection_logged : Bool

pub data LintError : Type 0 where
  requests_not_positive per_missing per_invalid per_not_positive burst_not_positive too_large :
      LintError

-- `lint`; `parse_duration` is `time.ParseDuration`, `none` where it fails.
unfoldable pub lint : (String → Option ℕ) → RateLimitDef → Option LintError
lint parse_duration r =
    if leb r.requests 0
    then some requests_not_positive
    else if str_eq r.per ""
    then some per_missing
    else elim (parse_duration r.per) [
      | none ↦ some per_invalid
      | some per ↦
          if leb per 0
          then some per_not_positive
          else if leb r.burst 0
          then some burst_not_positive
          else if ltb (max_int64 / per) r.burst
          then some too_large
          else none
    ]

-- `newCapabilityRateLimiter`, with the parsed duration.
unfoldable pub new_limiter : RateLimitDef → ℕ → ℕ → Limiter
new_limiter def per now = record {
  credit = wrapped (def.burst * per);
  capacity = wrapped (def.burst * per);
  cost = per;
  refill = def.requests;
  last = now;
  last_rejection_log = 0;
  rejection_logged = false;
}

-- How long an empty part of the bucket takes to fill.
unfoldable pub fill_after : ℕ → ℕ → ℕ
fill_after deficit refill =
    if not (deficit % refill == 0) then deficit / refill + 1 else deficit / refill

-- The first part of `take`: the credit for the time since the last call.
unfoldable pub refilled : Limiter → ℕ → Limiter
refilled b now =
    if ltb b.last now
    then record b {
      credit =
          if ltb 0 (b.capacity - b.credit)
          then if leb (fill_after (b.capacity - b.credit) b.refill) (now - b.last)
            then b.capacity
            else wrapped (b.credit + wrapped ((now - b.last) * b.refill))
          else b.credit;
      last = now;
    }
    else b

-- The second part: the result is `(allowed, logRejection)`.
unfoldable pub charge : Limiter → ℕ → Limiter × Bool × Bool
charge b now =
    if leb b.cost b.credit
    then (record b { credit = b.credit - b.cost }, true, false)
    else if not b.rejection_logged || leb rejection_log_interval (now - b.last_rejection_log)
    then (record b { last_rejection_log = now; rejection_logged = true }, false, true)
    else (b, false, false)

unfoldable pub take : Limiter → ℕ → Limiter × Bool × Bool
take b now = charge (refilled b now) now
