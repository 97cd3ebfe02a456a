-- ===== src/Samples/Agents.antt =====
-- The rate limit, the CSV reader and the scheduler on concrete inputs.
use Prim.Native.Nat.{min}
use mathlib.Core.List.{Memᴰ}
use onprest.Prelude.{
  ◌⊎◌, ℕ, ◌+◌, ◌-◌, ◌*◌, ◌≤◌, ◌<◌, ◌≡◌, refl, true, false, List, [], ◌∷◌, Option, none, some,
  String, arith, length, leb, if◌then◌else◌,
}
use onprest.Agent.RateLimit.{
  Limiter, RateLimitDef, rejection_log_interval, fill_after, lint, new_limiter, take, charge,
  refilled,
}
use onprest.Agent.RateLimit.Bounds.{IsValid, refilled-min, new_limiter-IsValid, take-IsValid}
use onprest.Agent.RateLimit.History.{
  admissions, admissions_bound, take-allowed, log_entries, log_entries_cover,
}
use onprest.Agent.Csv.Termination.{read_total}
use onprest.Agent.Csv.Records.{ReadResult, fields_read, read}
use onprest.Agent.Csv.RoundTrip.{from_list, from_list-Shorter, write_record, read-write_record}
use onprest.Ws.Scheduler.{
  Scheduler, new_scheduler, queue, is_empty, enqueue, post, next as next_job,
}
use onprest.Ws.Scheduler.Invariant.{
  IsValid as SchedulerIsValid, new_scheduler-IsValid, post-IsValid, next-IsValid,
}
use onprest.Ws.Scheduler.Backlog.{backlog, accepted, post_conserves}
use onprest.Ws.Scheduler.Fairness.{served, served_soon}
use onprest.Prelude.Dict.{lookup, insert}

abbrev two_a_second : RateLimitDef
two_a_second = record { requests = 2; per = "1s"; burst = 3 }

abbrev second : String → Option ℕ
second text = some 1_000_000_000

two_a_second_is_accepted : lint second two_a_second ≡ none
unfolding lint
two_a_second_is_accepted = refl

new_limiter-IsValid_example : IsValid (new_limiter two_a_second 1_000_000_000 5)
new_limiter-IsValid_example =
    new_limiter-IsValid second two_a_second 1_000_000_000 5 refl two_a_second_is_accepted

abbrev bucket : Limiter
bucket = record {
  credit = 1;
  capacity = 6;
  cost = 2;
  refill = 1;
  last = 10;
  last_rejection_log = 0;
  rejection_logged = false;
}

bucket-IsValid : IsValid bucket
bucket-IsValid = record {
  within = omega arith;
  fits = omega arith;
  refills = omega arith;
  costs = omega arith;
  holds_one = omega arith;
}

take-IsValid_example : IsValid (take bucket 12).0
take-IsValid_example = take-IsValid bucket 12 bucket-IsValid

take-allowed_example : (take bucket 11).1 ≡ leb 2 (min 6 (1 + (11 - 10) * 1))
take-allowed_example = take-allowed bucket 11 bucket-IsValid

-- A bucket that takes hours to fill, with a rejection logged at 10.
abbrev slow : Limiter
slow = record {
  credit = 1;
  capacity = 60_000_000_000_000;
  cost = 60_000_000_000_000;
  refill = 1;
  last = 10;
  last_rejection_log = 10;
  rejection_logged = true;
}

log_entries_cover_example :
    let (b', entries) = log_entries slow (20 ∷ 60_000_000_010 ∷ []) in
    let (b'', allowed, logged) = take b' 60_000_000_020 in
    (entries * rejection_log_interval + 10 ≤ b'.last_rejection_log)
    × ((allowed ≡ true)
        ⊎ ((b''.rejection_logged ≡ true)
            × (60_000_000_020 - b''.last_rejection_log < rejection_log_interval)))
log_entries_cover_example = log_entries_cover (20 ∷ 60_000_000_010 ∷ []) slow 60_000_000_020 refl

-- The first rejection falls within the minute of the entry, the second does not.
one_entry : (log_entries slow (20 ∷ 60_000_000_010 ∷ [])).1 ≡ 1
unfolding log_entries take charge refilled fill_after
one_entry = refl

admissions_bound_example :
    let (b', admitted) = admissions bucket (11 ∷ 12 ∷ 20 ∷ []) in
    admitted * 2 ≤ 6 + (b'.last - 10) * 1
admissions_bound_example = admissions_bound (11 ∷ 12 ∷ 20 ∷ []) bucket bucket-IsValid

refilled-min_example : (refilled bucket 12).credit ≡ min 6 (1 + (12 - 10) * 1)
refilled-min_example = refilled-min bucket 12 bucket-IsValid

read_total_example :
    (r : ReadResult (List ℕ) ℕ) × (read from_list 44 5 (97 ∷ 44 ∷ 34 ∷ []) ≡ some r)
read_total_example =
    read_total (List ℕ) ℕ length from_list 44 (from_list-Shorter ℕ) 5 (97 ∷ 44 ∷ 34 ∷ [])
      (omega arith)

read-write_record_example :
    read {E = ℕ} from_list 44 20 (write_record 44 (97 ∷ 34 ∷ []) ((10 ∷ []) ∷ []) (98 ∷ []))
    ≡ some (fields_read ((97 ∷ 34 ∷ []) ∷ (10 ∷ []) ∷ []) (98 ∷ []))
read-write_record_example =
    read-write_record ℕ 44 refl refl (97 ∷ 34 ∷ []) ((10 ∷ []) ∷ []) (98 ∷ []) 20 (omega arith)

abbrev posted : Scheduler ℕ ℕ
posted = (post none false "t" 7 (post none false "" 1 new_scheduler).0).0

posted-IsValid : SchedulerIsValid posted
posted-IsValid =
    post-IsValid none false "t" 7 _
      (post-IsValid none false "" 1 new_scheduler new_scheduler-IsValid)

post-IsValid_example : SchedulerIsValid (post none true "" 9 posted).0
post-IsValid_example = post-IsValid none true "" 9 posted posted-IsValid

next-IsValid_example : SchedulerIsValid (next_job posted).0
next-IsValid_example = next-IsValid posted posted-IsValid

posted_order :
    (posted.control ≡ []) × (posted.order ≡ "t" ∷ []) × (queue "t" posted.transfers ≡ 7 ∷ [])
unfolding post enqueue is_empty lookup insert
posted_order = (refl, refl, refl)

posted_room : 2 * 0 + (if posted.last_normal then 1 else 2) ≤ 2
unfolding post enqueue is_empty lookup insert
posted_room = omega arith

served_soon_example : Memᴰ 7 (served 2 posted)
served_soon_example =
    served_soon "t" [] [] 7 [] 2 posted posted-IsValid posted_order.0 posted_order.1 posted_order.2
      posted_room

post_conserves_example :
    backlog (post none false "t" 8 posted).0
    ≡ backlog posted + accepted (post none false "t" 8 posted).1
post_conserves_example = post_conserves none false "t" 8 posted posted-IsValid
