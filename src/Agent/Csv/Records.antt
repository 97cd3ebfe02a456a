-- ===== src/Agent/Csv/Records.antt =====
-- internal/agent/csv_parser.go: `csvRecords.read`, over any source of characters.
use onprest.Prelude.{
  ℕ, zero, suc, Bool, true, false, not, List, [], ◌∷◌, ◌++◌, Option, none, some, ◌==◌,
  if◌then◌else◌,
}
use onprest.Agent.Csv.{
  Next, char, end_of_file, bad, CsvError, unterminated_quote, bare_cr, after_quote, quote_in_field,
}

-- The values 0 to 3 of `state`.
pub data State : Type 0 where
  field_start quoted quote_in_quoted unquoted : State

-- A field is its runes.
abbrev pub Field : Type 0
Field = List ℕ

pub data ReadResult (S E : Type 0) : Type 0 where
  fields_read : List Field → S → ReadResult S E
  no_more : ReadResult S E
  failed : CsvError E → ReadResult S E

-- One character's part of the loop: it goes on, or the call returns.
pub data Turn (S E : Type 0) : Type 0 where
  go : S → List Field → Field → State → Bool → Turn S E
  back : ReadResult S E → Turn S E

module _ {S E : Type 0} where
  -- The reader is at its end, with `rest` of the input.
  unfoldable pub at_end : S → List Field → Field → State → Bool → Turn S E
  at_end rest fields value quoted started = back (failed unterminated_quote)
  at_end rest fields value state started =
      if not started then back no_more else back (fields_read (fields ++ value ∷ []) rest)

  -- The end of a line: after a blank one the outer loop starts again.
  unfoldable pub end_line : S → List Field → Field → Bool → Turn S E
  end_line rest fields value started =
      if not started
      then go rest [] [] field_start false
      else back (fields_read (fields ++ value ∷ []) rest)

  unfoldable pub after_cr : Next S E → List Field → Field → Bool → Turn S E
  after_cr (char r rest) fields value started =
      if not (r == 10) then back (failed bare_cr) else end_line rest fields value started
  after_cr end_of_file fields value started = back (failed bare_cr)
  after_cr (bad e) fields value started = back (failed e)

  -- A character that is no delimiter and no line break, outside quotes.
  unfoldable pub plain : ℕ → S → List Field → Field → State → Bool → Turn S E
  plain r rest fields value quote_in_quoted started = back (failed after_quote)
  plain r rest fields value field_start started =
      if r == 34
      then go rest fields value quoted true
      else go rest fields (value ++ r ∷ []) unquoted true
  plain r rest fields value state started =
      if r == 34
      then back (failed quote_in_field)
      else go rest fields (value ++ r ∷ []) unquoted true

  module _ (next : S → Next S E) (delimiter : ℕ) where
    unfoldable pub outside : ℕ → S → List Field → Field → State → Bool → Turn S E
    outside r rest fields value state started =
        if r == delimiter
        then go rest (fields ++ value ∷ []) [] field_start true
        else if r == 10
        then end_line rest fields value started
        else if r == 13
        then after_cr (next rest) fields value started
        else plain r rest fields value state started

    unfoldable pub on_char : ℕ → S → List Field → Field → State → Bool → Turn S E
    on_char r rest fields value quoted started =
        if r == 34
        then go rest fields value quote_in_quoted started
        else go rest fields (value ++ r ∷ []) quoted started
    on_char r rest fields value quote_in_quoted started =
        if r == 34
        then go rest fields (value ++ r ∷ []) quoted started
        else outside r rest fields value quote_in_quoted started
    on_char r rest fields value state started = outside r rest fields value state started

    unfoldable pub turn : Next S E → S → List Field → Field → State → Bool → Turn S E
    turn (char r rest) s fields value state started = on_char r rest fields value state started
    turn end_of_file s fields value state started = at_end s fields value state started
    turn (bad e) s fields value state started = back (failed e)

    -- The two loops of `read`; `none` is out of fuel.
    unfoldable pub loop : ℕ → Turn S E → Option (ReadResult S E)
    loop fuel (back r) = some r
    loop zero (go s fields value state started) = none
    loop (suc fuel) (go s fields value state started) =
        loop fuel (turn (next s) s fields value state started)

    -- `csvRecords.read`.
    unfoldable pub read : ℕ → S → Option (ReadResult S E)
    read fuel s = loop fuel (go s [] [] field_start false)
