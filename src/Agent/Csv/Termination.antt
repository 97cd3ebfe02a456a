-- ===== src/Agent/Csv/Termination.antt =====
-- Reading a record ends: each character that is read shortens the input.
use onprest.Prelude.{
  ℕ, zero, suc, ◌≤◌, ◌<◌, ◌≡◌, refl, inl, inr, Bool, true, false, List, [], some, arith, ◌==◌,
  Bool-cases,
}
use onprest.Agent.Csv.{Next, char, end_of_file, bad}
use onprest.Agent.Csv.Records.{
  State, field_start, quoted, quote_in_quoted, unquoted, Field, ReadResult, Turn, go, back, at_end,
  end_line, after_cr, plain, outside, on_char, turn, loop, read,
}

module _ {S E : Type 0} (left : S → ℕ) where
  -- What is left after a character is less than `n`.
  unfoldable pub Shorter : Next S E → ℕ → Type 0
  Shorter (char r rest) n = left rest < n
  Shorter end_of_file n = Unit
  Shorter (bad e) n = Unit

  unfoldable pub Within : Turn S E → ℕ → Type 0
  Within (back r) n = Unit
  Within (go s fields value state started) n = left s < n

module _ (S E : Type 0) (left : S → ℕ) where
  end_line-Within :
      (rest : S) (fields : List Field) (value : Field) (started : Bool) (n : ℕ)
      → left rest < n
      → Within {E = E} left (end_line rest fields value started) n
  unfolding end_line Within
  end_line-Within rest fields value true n h = tt
  end_line-Within rest fields value false n h = h

  at_end-Within :
      (rest : S) (fields : List Field) (value : Field) (state : State) (started : Bool) (n : ℕ)
      → Within {E = E} left (at_end rest fields value state started) n
  unfolding at_end Within
  at_end-Within rest fields value quoted started n = tt
  at_end-Within rest fields value field_start true n = tt
  at_end-Within rest fields value field_start false n = tt
  at_end-Within rest fields value quote_in_quoted true n = tt
  at_end-Within rest fields value quote_in_quoted false n = tt
  at_end-Within rest fields value unquoted true n = tt
  at_end-Within rest fields value unquoted false n = tt

  plain-Within :
      (r : ℕ) (rest : S) (fields : List Field) (value : Field) (state : State) (started : Bool)
      (n : ℕ)
      → left rest < n
      → Within {E = E} left (plain r rest fields value state started) n
  unfolding plain Within
  plain-Within r rest fields value quoted started n h = ground arith
  plain-Within r rest fields value field_start started n h = ground arith
  plain-Within r rest fields value quote_in_quoted started n h = ground arith
  plain-Within r rest fields value unquoted started n h = ground arith

  after_cr-Within :
      (x : Next S E) (fields : List Field) (value : Field) (started : Bool) (n : ℕ)
      → Shorter left x n
      → Within left (after_cr x fields value started) n
  unfolding after_cr Within Shorter
  after_cr-Within (char r rest) fields value started n h = elim (Bool-cases (r == 10)) [
    | inl e ↦ rw (e, after_cr) (end_line-Within rest fields value started n h)
    | inr e ↦ rw (e, after_cr) tt
  ]
  after_cr-Within end_of_file fields value started n h = tt
  after_cr-Within (bad e) fields value started n h = tt

  module _ (next : S → Next S E) (delimiter : ℕ)
      (shrinks : (s : S) → Shorter left (next s) (left s)) where
    Shorter-weaken : (x : Next S E) (m n : ℕ) → m ≤ n → Shorter left x m → Shorter left x n
    unfolding Shorter
    Shorter-weaken (char r rest) m n h k = omega arith
    Shorter-weaken end_of_file m n h k = tt
    Shorter-weaken (bad e) m n h k = tt

    outside-Within :
        (r : ℕ) (rest : S) (fields : List Field) (value : Field) (state : State) (started : Bool)
        (n : ℕ)
        → left rest < n
        → Within left (outside next delimiter r rest fields value state started) n
    unfolding Within outside
    outside-Within r rest fields value state started n h = elim (Bool-cases (r == delimiter)) [
      | inl d ↦ rw (d, outside) h
      | inr d ↦ elim (Bool-cases (r == 10)) [
        | inl lf ↦ rw (d, lf, outside) (end_line-Within rest fields value started n h)
        | inr lf ↦ elim (Bool-cases (r == 13)) [
          | inl cr ↦
              rw (d, lf, cr, outside)
                (after_cr-Within (next rest) fields value started n
                  (Shorter-weaken (next rest) (left rest) n (omega arith) (shrinks rest)))
          | inr cr ↦ rw (d, lf, cr, outside) (plain-Within r rest fields value state started n h)
        ]
      ]
    ]

    on_char-Within :
        (r : ℕ) (rest : S) (fields : List Field) (value : Field) (state : State) (started : Bool)
        (n : ℕ)
        → left rest < n
        → Within left (on_char next delimiter r rest fields value state started) n
    unfolding Within on_char
    on_char-Within r rest fields value quoted started n h = elim (Bool-cases (r == 34)) [
      | inl q ↦ rw (q, on_char) h
      | inr q ↦ rw (q, on_char) h
    ]
    on_char-Within r rest fields value quote_in_quoted started n h = elim (Bool-cases (r == 34)) [
      | inl q ↦ rw (q, on_char) h
      | inr q ↦ rw (q, on_char) (outside-Within r rest fields value quote_in_quoted started n h)
    ]
    on_char-Within r rest fields value field_start started n h =
        outside-Within r rest fields value field_start started n h
    on_char-Within r rest fields value unquoted started n h =
        outside-Within r rest fields value unquoted started n h

    turn-Within :
        (x : Next S E) (s : S) (fields : List Field) (value : Field) (state : State)
        (started : Bool) (n : ℕ)
        → Shorter left x n
        → Within left (turn next delimiter x s fields value state started) n
    unfolding Within turn Shorter
    turn-Within (char r rest) s fields value state started n h =
        on_char-Within r rest fields value state started n h
    turn-Within end_of_file s fields value state started n h =
        at_end-Within s fields value state started n
    turn-Within (bad e) s fields value state started n h = tt

    loop_total :
        (fuel : ℕ) (t : Turn S E)
        → Within left t fuel
        → (r : ReadResult S E) × (loop next delimiter fuel t ≡ some r)
    unfolding Within loop
    loop_total fuel (back r) h = (r, refl)
    loop_total zero (go s fields value state started) h = absurd (omega arith)
    loop_total (suc fuel) (go s fields value state started) h =
        loop_total fuel (turn next delimiter (next s) s fields value state started) (
          turn-Within (next s) s fields value state started fuel
            (Shorter-weaken (next s) (left s) fuel (omega arith) (shrinks s)))

    -- Where each character that is read shortens the input, read returns on any fuel above what is
    -- left of it.
    pub read_total :
        (fuel : ℕ) (s : S)
        → left s < fuel
        → (r : ReadResult S E) × (read next delimiter fuel s ≡ some r)
    unfolding Within read
    read_total fuel s h = loop_total fuel (go s [] [] field_start false) h
