-- ===== src/Agent/Effects/Outcomes.antt =====
-- An outcome against its specification, which counts the operations and forgets their order.
use onprest.Prelude.{
  ℕ, ◌+◌, ◌≤◌, ◌≡◌, refl, Bool, not, List, [], ◌∷◌, ◌==◌, arith, if◌then◌else◌, length,
}
use onprest.Agent.Effects.{
  Status, not_started, no_change, unknown, committed, rolled_back, is_committed, is_rolled_back,
  Effects, all_are, settled, outcome,
}

unfoldable pub count : (Status → Bool) → List Status → ℕ
count test [] = 0
count test (s ∷ ops) = (if test s then 1 else 0) + count test ops

-- What an execution that started came to, by the number of its operations and how many of them
-- were committed and rolled back.
abbrev pub tally : Bool → ℕ → ℕ → ℕ → Status
tally no_changes total commits rollbacks =
    if total == 0
    then if no_changes then no_change else unknown
    else if commits == total
    then committed
    else if rollbacks == total
    then rolled_back
    else unknown

count-le : (test : Status → Bool) (ops : List Status) → count test ops ≤ length ops
unfolding count
count-le test [] = omega arith
count-le test (s ∷ ops) = ground (arith, count-le test ops)

all_are-committed :
    (ops : List Status) → all_are committed ops ≡ (count is_committed ops == length ops)
unfolding all_are count
all_are-committed [] = refl
all_are-committed (committed ∷ ops) = ground (arith, all_are-committed ops)
all_are-committed (_ ∷ ops) = ground (arith, count-le is_committed ops)

all_are-rolled_back :
    (ops : List Status) → all_are rolled_back ops ≡ (count is_rolled_back ops == length ops)
unfolding all_are count
all_are-rolled_back [] = refl
all_are-rolled_back (rolled_back ∷ ops) = ground (arith, all_are-rolled_back ops)
all_are-rolled_back (_ ∷ ops) = ground (arith, count-le is_rolled_back ops)

settled-tally :
    (no_changes : Bool) (ops : List Status)
    → settled no_changes ops
      ≡ tally no_changes (length ops) (count is_committed ops) (count is_rolled_back ops)
unfolding settled count
settled-tally no_changes [] = refl
settled-tally no_changes (committed ∷ ops) =
    ground (arith, all_are-committed ops, count-le is_rolled_back ops)
settled-tally no_changes (rolled_back ∷ ops) =
    ground (arith, all_are-rolled_back ops, count-le is_committed ops)
settled-tally no_changes (_ ∷ ops) =
    ground (arith, count-le is_rolled_back ops, count-le is_committed ops)

-- The outcome of an execution's effects is the one that counting gives, whatever the order of the
-- operations: not started; no change or unknown where there is no operation; committed or rolled
-- back where every operation is; and otherwise unknown.
pub outcome-tally :
    (e : Effects)
    → outcome e ≡ (
        if not e.started
        then not_started
        else tally e.no_changes
            (length e.operations)
            (count is_committed e.operations)
            (count is_rolled_back e.operations))
unfolding outcome
outcome-tally e = rw (settled-tally e.no_changes e.operations) refl
