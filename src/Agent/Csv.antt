-- ===== src/Agent/Csv.antt =====
-- internal/agent/csv_parser.go: the characters and the records of a CSV file.
pub mod Records
pub mod Termination
pub mod RoundTrip
use text.Mathlib.Text.{◌==◌ as str_eq}
use onprest.Prelude.{
  ℕ, ◌+◌, ◌-◌, ◌*◌, Bool, true, false, not, ◌&&◌, ◌||◌, List, [], ◌∷◌, Option, none, some, String,
  Bytes, ltb, leb, ◌==◌, if◌then◌else◌,
}

pub data CsvError (E : Type 0) : Type 0 where
  context_ended : E → CsvError E
  invalid_utf8 invalid_lead invalid_trail invalid_pair unexpected_eof : CsvError E
  unterminated_quote bare_cr after_quote quote_in_field : CsvError E

-- What reading a character gives: it and what is left of the input, `io.EOF`, or another error.
pub data Next (S E : Type 0) : Type 0 where
  char : ℕ → S → Next S E
  end_of_file : Next S E
  bad : CsvError E → Next S E

-- A rune that `bufio.Reader.ReadRune` decodes, with its width; the input is not empty.
abbrev pub Decoder : Type 0
Decoder = ℕ → Bytes → ℕ × ℕ × Bytes

-- The pairs for which JIS X 0208 and the decoder differ.
unfoldable pub jis_rune : ℕ → ℕ → ℕ
jis_rune pair r =
    if pair == 33120
    then 12316
    else if pair == 33121
    then 8214
    else if pair == 33148
    then 8722
    else if pair == 33169
    then 162
    else if pair == 33170
    then 163
    else if pair == 33226
    then 172
    else r

module _ {E : Type 0} (read_rune : Decoder) (transform : ℕ → ℕ → Option ℕ) where
  -- A pair of bytes; `transform` is the library's decoder, `none` for an error, for a pair that it does
  -- not take whole, and for the replacement character.
  unfoldable pub pair_rune : String → ℕ → ℕ → Bytes → Next Bytes E
  pair_rune encoding b trail rest =
      if ltb trail 64 || (trail == 127 || ltb 252 trail)
      then bad invalid_trail
      else if leb 240 b && leb b 249
      then char (57344 + (b - 240) * 188 + ((trail - 64) - (if leb 128 trail then 1 else 0))) rest
      else elim (transform b trail) [
        | none ↦ bad invalid_pair
        | some r ↦
            char (if str_eq encoding "shift_jis" then jis_rune (b * 256 + trail) r else r) rest
      ]

  unfoldable pub lead_byte : String → ℕ → Bytes → Next Bytes E
  lead_byte encoding b rest =
      if not (leb 129 b && leb b 159 || leb 224 b && leb b 252)
        || (str_eq encoding "shift_jis" && (b == 135 || ltb 234 b))
      then bad invalid_lead
      else elim rest [ [] ↦ bad unexpected_eof | trail ∷ rest' ↦ pair_rune encoding b trail rest' ]

  unfoldable pub single_byte : String → ℕ → Bytes → Next Bytes E
  single_byte encoding b rest =
      if ltb b 128
      then char b rest
      else if leb 161 b && leb b 223
      then char (b + 65377 - 161) rest
      else if str_eq encoding "cp932" && b == 128
      then char 128 rest
      else if str_eq encoding "cp932" && b == 160
      then char 63728 rest
      else if str_eq encoding "cp932" && leb 253 b
      then char (63729 + (b - 253)) rest
      else lead_byte encoding b rest

  unfoldable pub utf8_rune : ℕ × ℕ × Bytes → Next Bytes E
  utf8_rune (r, n, rest) = if r == 65533 && n == 1 then bad invalid_utf8 else char r rest

  -- `csvCharacters.next`; the input is what the buffered reader has left.
  unfoldable pub next : Option E → String → Bytes → Next Bytes E
  next ended encoding input = elim ended [
    | some e ↦ bad (context_ended e)
    | none ↦ elim input [
      | [] ↦ end_of_file
      | b ∷ rest ↦
          if str_eq encoding "utf-8"
          then utf8_rune (read_rune b rest)
          else single_byte encoding b rest
    ]
  ]
