-- ===== src/Agent/Csv/RoundTrip.antt =====
-- A record that is written with every field quoted is read back.
use onprest.Prelude.{
  ℕ, zero, suc, ◌<◌, ◌≡◌, refl, sym, ap, ◌∙◌, inl, inr, Bool, true, false, List, [], ◌∷◌, ◌++◌,
  append_assoc, append-nil, some, arith, ◌==◌, ==_iff, Bool-cases, if◌then◌else◌, length, some_inj,
}
use onprest.Agent.Csv.{Next, char, end_of_file}
use onprest.Agent.Csv.Records.{
  State, field_start, quoted, Field, ReadResult, fields_read, Turn, go, back, end_line, outside,
  on_char, turn, loop, read, plain,
}
use onprest.Agent.Csv.Termination.{Shorter, read_total}

-- The characters of a field inside its quotes, which are doubled there.
abbrev pub escape : Field → List ℕ → List ℕ
escape [] rest = rest
escape (r ∷ rs) rest = if r == 34 then 34 ∷ 34 ∷ escape rs rest else r ∷ escape rs rest

-- A record in quotes with a line feed at its end, before `rest`.
abbrev pub write_record : ℕ → Field → List Field → List ℕ → List ℕ
write_record delimiter f [] rest = 34 ∷ escape f (34 ∷ 10 ∷ rest)
write_record delimiter f (g ∷ fs) rest =
    34 ∷ escape f (34 ∷ delimiter ∷ write_record delimiter g fs rest)

-- The characters of a list.
abbrev pub from_list : {E : Type 0} → List ℕ → Next (List ℕ) E
from_list [] = end_of_file
from_list (r ∷ rest) = char r rest

pub from_list-Shorter : (E : Type 0) (s : List ℕ) → Shorter {E = E} length (from_list s) (length s)
unfolding Shorter
from_list-Shorter E [] = tt
from_list-Shorter E (r ∷ rest) = omega arith

module _ (E : Type 0) (delimiter : ℕ) where
  -- The loop comes from one turn to another.
  data Reaches : Turn (List ℕ) E → Turn (List ℕ) E → Type 0 where
    here : {t : Turn (List ℕ) E} → Reaches t t
    step :
        {s : List ℕ} {fields : List Field} {value : Field} {state : State} {started : Bool}
        {u : Turn (List ℕ) E}
        → Reaches (turn from_list delimiter (from_list s) s fields value state started) u
        → Reaches (go s fields value state started) u

  result_of :
      (fuel : ℕ) (t u : Turn (List ℕ) E) (r r' : ReadResult (List ℕ) E)
      → Reaches t u
      → u ≡ back r
      → loop from_list delimiter fuel t ≡ some r'
      → r' ≡ r
  unfolding loop
  result_of fuel t u r r' here b e = sym (some_inj (rw b at e))
  result_of zero t u r r' (step p) b e = absurd (ground arith)
  result_of (suc fuel) t u r r' (step p) b e = result_of fuel _ u r r' p b e

  -- Inside quotes the field's characters are read up to the closing quote.
  escape_read :
      (rs tail : List ℕ) (fields : List Field) (value : Field) (u : Turn (List ℕ) E)
      → Reaches (go tail fields (value ++ rs) quoted true) u
      → Reaches (go (escape rs tail) fields value quoted true) u
  unfolding turn on_char
  escape_read [] tail fields value u h = rw (sym (append-nil value)) h
  escape_read (r ∷ rs) tail fields value u h = elim (Bool-cases (r == 34)) [
    | inl q ↦ rw q (
        step (
          step (
            escape_read rs tail fields (value ++ 34 ∷ []) u
              (rw (append_assoc value (34 ∷ []) rs) (rw ((==_iff r 34).0 q) at h)))))
    | inr q ↦ rw q (
        step (
          rw (q, on_char)
            (escape_read rs tail fields (value ++ r ∷ []) u
              (rw (append_assoc value (r ∷ []) rs) h))))
  ]

  module _ (no_quote : (34 == delimiter) ≡ false) (no_break : (10 == delimiter) ≡ false) where
    record_read :
        (f : Field) (fs : List Field) (rest : List ℕ) (before : List Field) (started : Bool)
        → Reaches
            (go (write_record delimiter f fs rest) before [] field_start started)
            (back (fields_read (before ++ f ∷ fs) rest))
    unfolding turn on_char outside plain end_line
    record_read f [] rest before started =
        step (
          rw no_quote (escape_read f (34 ∷ 10 ∷ rest) before [] _ (step (step (rw no_break here)))))
    record_read f (g ∷ fs) rest before started =
        let same : (delimiter == delimiter) ≡ true = ground arith in
        let other : (delimiter == 34) ≡ false = ground arith in
        step (
          rw no_quote (
            escape_read f (34 ∷ delimiter ∷ write_record delimiter g fs rest) before [] _ (
              step (
                step (
                  rw (other, same)
                    (rw (append_assoc before (f ∷ []) (g ∷ fs)) at
                      (record_read g fs rest (before ++ f ∷ []) true)))))))

    -- A record written with every field quoted, its quotes doubled and a line feed at its end is
    -- read back field by field, whatever the fields hold, with the rest of the input left, where
    -- the delimiter is neither a quote nor a line feed and the fuel is above the length of the
    -- input.
    pub read-write_record :
        (f : Field) (fs : List Field) (rest : List ℕ) (fuel : ℕ)
        → length (write_record delimiter f fs rest) < fuel
        → read {E = E} from_list delimiter fuel (write_record delimiter f fs rest)
          ≡ some (fields_read (f ∷ fs) rest)
    unfolding read
    read-write_record f fs rest fuel h =
        let (r, e) =
          read_total (List ℕ) E length from_list delimiter (from_list-Shorter E) fuel
            (write_record delimiter f fs rest) h in
        e ∙ ap some (result_of fuel _ _ _ r (record_read f fs rest [] false) refl e)
