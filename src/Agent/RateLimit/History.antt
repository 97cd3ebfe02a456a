-- ===== src/Agent/RateLimit/History.antt =====
-- The guarantees of the token bucket over whole histories of calls.
use Prim.Native.Nat.{min}
use onprest.Prelude.{
  ◌⊎◌, ℕ, ◌+◌, ◌-◌, ◌*◌, ◌≤◌, ◌<◌, ◌≡◌, true, false, arith, inl, inr, Bool-cases, List, [], ◌∷◌,
  leb, if◌then◌else◌,
}
use onprest.Agent.RateLimit.{Limiter, rejection_log_interval, refilled, charge, take}
use onprest.Agent.RateLimit.Bounds.{
  IsValid, refilled-min, refilled_keeps, take-IsValid, take_spends,
}

-- Calls at these times, and how many of them are admitted.
unfoldable pub admissions : Limiter → List ℕ → Limiter × ℕ
unfolding take charge refilled
admissions b [] = (b, 0)
admissions b (now ∷ times) =
    let (b', allowed, logged) = take b now in
    let (b'', admitted) = admissions b' times in (b'', (if allowed then 1 else 0) + admitted)

elapsed : (a b c r : ℕ) → a ≤ b → b ≤ c → (b - a) * r + (c - b) * r ≡ (c - a) * r
elapsed a b c r h k = let e : c - a ≡ (b - a) + (c - b) = omega arith in rw e (omega arith)

admissions_spend :
    (times : List ℕ) (b : Limiter)
    → IsValid b
    → let (b', admitted) = admissions b times in
      (admitted * b.cost + b'.credit ≤ b.credit + (b'.last - b.last) * b.refill)
      × (b.last ≤ b'.last)
unfolding admissions
admissions_spend [] b v = omega arith
admissions_spend (now ∷ times) b v =
    let b' = (take b now).0 in
    let (now_spent, forward, cost, refill) = take_spends b now v in
    let ih = admissions_spend times b' (take-IsValid b now v) in
    let (later_spent, later) = rw (cost, refill) at ih in
    let whole = elapsed b.last b'.last (admissions b' times).0.last b.refill forward later in
    elim (Bool-cases (take b now).1) [
      | inl allowed ↦ let spent = rw allowed at now_spent in rw allowed (omega arith)
      | inr refused ↦ let spent = rw refused at now_spent in rw refused (omega arith)
    ]

-- A valid bucket, over any sequence of calls of take, admits no more requests than its capacity and
-- the refill of the time that passes from its last call to the last of these pay for.
pub admissions_bound :
    (times : List ℕ) (b : Limiter)
    → IsValid b
    → let (b', admitted) = admissions b times in
      admitted * b.cost ≤ b.capacity + (b'.last - b.last) * b.refill
admissions_bound times b v = omega (arith, admissions_spend times b v)

-- A valid bucket admits a call exactly when its credit and the refill of the time since its last
-- call, up to the capacity, cover the cost.
pub take-allowed :
    (b : Limiter) (now : ℕ)
    → IsValid b
    → (take b now).1 ≡ leb b.cost (min b.capacity (b.credit + (now - b.last) * b.refill))
unfolding take charge
take-allowed b now v = ground (arith, refilled-min b now v, refilled_keeps b now)

-- Calls at these times, and how many of them ask for a log entry.
unfoldable pub log_entries : Limiter → List ℕ → Limiter × ℕ
unfolding take charge refilled
log_entries b [] = (b, 0)
log_entries b (now ∷ times) =
    let (b', allowed, logged) = take b now in
    let (b'', entries) = log_entries b' times in (b'', (if logged then 1 else 0) + entries)

-- What one call does to the entries, once there was one.
take-spaced :
    (b : Limiter) (now : ℕ)
    → b.rejection_logged ≡ true
    → let (b', allowed, logged) = take b now in
      (b'.rejection_logged ≡ true)
      × ((if logged then 1 else 0) * rejection_log_interval + b.last_rejection_log
          ≤ b'.last_rejection_log)
unfolding take charge refilled
take-spaced b now h = ground arith

log_entries-spaced :
    (times : List ℕ) (b : Limiter)
    → b.rejection_logged ≡ true
    → let (b', entries) = log_entries b times in
      (b'.rejection_logged ≡ true)
      × (entries * rejection_log_interval + b.last_rejection_log ≤ b'.last_rejection_log)
unfolding log_entries
log_entries-spaced [] b h = (h, omega arith)
log_entries-spaced (now ∷ times) b h =
    let (kept, spaced) = take-spaced b now h in
    let (later_kept, later) = log_entries-spaced times (take b now).0 kept in
    (later_kept, omega (arith, spaced, later))

-- What a call that is rejected leaves behind.
take-covered :
    (b : Limiter) (now : ℕ)
    → (take b now).1 ≡ false
    → let b' = (take b now).0 in
      (b'.rejection_logged ≡ true) × (now - b'.last_rejection_log < rejection_log_interval)
unfolding take charge refilled
take-covered b now h = ground arith

-- For a bucket with a logged rejection, the entries that any sequence of calls of take asks for
-- fit, a minute each, between the last entry before and the last one after; and a call after them
-- is admitted, or the last entry is then less than a minute before it.
pub log_entries_cover :
    (times : List ℕ) (b : Limiter) (now : ℕ)
    → b.rejection_logged ≡ true
    → let (b', entries) = log_entries b times in
      let (b'', allowed, logged) = take b' now in
      (entries * rejection_log_interval + b.last_rejection_log ≤ b'.last_rejection_log)
      × ((allowed ≡ true)
          ⊎ ((b''.rejection_logged ≡ true)
              × (now - b''.last_rejection_log < rejection_log_interval)))
log_entries_cover times b now h =
    let b' = (log_entries b times).0 in
    (
      (log_entries-spaced times b h).1,
      elim (Bool-cases (take b' now).1) [
        | inl admitted ↦ inl admitted
        | inr rejected ↦ inr (take-covered b' now rejected)
      ],
    )
