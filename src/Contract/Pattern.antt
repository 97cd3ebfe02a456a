-- ===== src/Contract/Pattern.antt =====
-- internal/contract/pattern.go: the check of a pattern's syntax before the library's parser reads it.
pub mod Termination
use onprest.Prelude.{
  ℕ, zero, suc, ◌+◌, ◌-◌, Bool, true, false, not, ◌&&◌, ◌||◌, List, [], ◌∷◌, ◌++◌, Option, none,
  some, Bytes, ltb, leb, ◌==◌, if◌then◌else◌, length, take, drop, get_or,
}
use onprest.Prelude.Cursor.{Flow, goto, return, scan}
use onprest.Sql.Regions.{index_byte}

pub data PatternError : Type 0 where
  not_unicode quantified_anchor incomplete_escape class_only_hyphen invalid_hex unsupported_escape
        nested_class closing_bracket_first unescaped_syntax unsupported_group invalid_repetition
        unterminated_class refused_by_parser :
      PatternError

pub record Check : Type 0 where
  pub in_class : Bool
  pub after_anchor : Bool
  pub failure : Option PatternError

abbrev pub byte_at : Bytes → ℕ → ℕ
byte_at source i = get_or source i 0

pub member : ℕ → Bytes → Bool
member c [] = false
member c (b ∷ bs) = c == b || member c bs

abbrev pub fail : PatternError → Check → Flow Check
fail e s = return (record s { failure = some e })

-- The escapes that stand anywhere: those of the first two cases of the switch.
abbrev pub escapes : Bytes
escapes =
    b'\\' ∷ b'/' ∷ b'n' ∷ b'r' ∷ b't' ∷ b'f' ∷ b'v' ∷ b'd' ∷ b'D' ∷ b'w' ∷ b'W' ∷ b'.' ∷ b'*' ∷ b'+'
    ∷ b'?' ∷ b'(' ∷ b')' ∷ b'[' ∷ b']' ∷ b'{' ∷ b'}' ∷ b'^' ∷ b'$' ∷ b'|' ∷ []

-- The escape at `i`, behind the backslash; `parse_hex` tells whether `strconv.ParseUint` takes two
-- bytes in base 16.
unfoldable pub escape_step : (Bytes → Bool) → Bytes → ℕ → Check → Flow Check
escape_step parse_hex source i s =
    if leb (length source) i
    then fail incomplete_escape s
    else if member (byte_at source i) escapes
    then goto (i + 1) s
    else if byte_at source i == b'-'
    then (if not s.in_class then fail class_only_hyphen s else goto (i + 1) s)
    else if byte_at source i == b'x'
    then if leb (length source) (i + 2)
      then fail invalid_hex s
      else if not (parse_hex (take 2 (drop (i + 1) source)))
      then fail invalid_hex s
      else goto (i + 3) s
    else fail unsupported_escape s

unfoldable pub all_digits : Bytes → Bool
all_digits [] = true
all_digits (r ∷ rs) = not (ltb r 48 || ltb 57 r) && all_digits rs

-- The parts of `strings.Split(body, ",")`: the first, and the others.
unfoldable pub split : Bytes → Bytes × List Bytes
split [] = ([], [])
split (b ∷ bs) =
    let (first, others) = split bs in
    if b == b',' then ([], first ∷ others) else (b ∷ first, others)

unfoldable pub repetition : Bytes × List Bytes → Bool
repetition ([], others) = false
repetition (first, []) = all_digits first
repetition (first, second ∷ []) = all_digits first && all_digits second
repetition (first, second ∷ third ∷ others) = false

-- `{` at `i`, outside a class.
unfoldable pub brace_step : Bytes → ℕ → Check → Flow Check
brace_step source i s = elim (index_byte b'}' (drop (i + 1) source)) [
  | none ↦ fail invalid_repetition s
  | some end ↦
      if not (repetition (split (take end (drop (i + 1) source))))
      then fail invalid_repetition s
      else goto (i + end + 2) s
]

-- `[` at `i`: the byte that comes first in the class.
unfoldable pub class_step : Bytes → ℕ → Check → Flow Check
class_step source i s =
    let first =
      if ltb (i + 1) (length source) && byte_at source (i + 1) == b'^' then i + 2 else i + 1 in
    if ltb first (length source) && byte_at source first == b']'
    then fail closing_bracket_first s
    else goto (i + 1) (record s { in_class = true })

unfoldable pub group_step : Bytes → ℕ → Check → Flow Check
group_step source i s =
    if ltb (i + 1) (length source) && byte_at source (i + 1) == b'?'
    then if leb (length source) (i + 2) || not (byte_at source (i + 2) == b':')
      then fail unsupported_group s
      else goto (i + 3) s
    else goto (i + 1) s

-- The byte `c` at `i`, outside a class.
unfoldable pub syntax_step : Bytes → ℕ → ℕ → Check → Flow Check
syntax_step source c i s =
    if c == b'['
    then class_step source i s
    else if c == b'^' || c == b'$'
    then goto (i + 1) (record s { after_anchor = true })
    else if c == b']' || c == b'}'
    then fail unescaped_syntax s
    else if c == b'('
    then group_step source i s
    else if c == b'{'
    then brace_step source i s
    else goto (i + 1) s

-- The byte `c` at `i`, with `anchor` telling whether it follows an anchor.
unfoldable pub byte_step : (Bytes → Bool) → Bytes → ℕ → Bool → ℕ → Check → Flow Check
byte_step parse_hex source c anchor i s =
    if (not s.in_class && anchor) && (c == b'*' || (c == b'+' || (c == b'?' || c == b'{')))
    then fail quantified_anchor s
    else if c == b'\\'
    then escape_step parse_hex source (i + 1) s
    else if s.in_class
    then if c == b'['
      then fail nested_class s
      else goto (i + 1) (if c == b']' then record s { in_class = false } else s)
    else syntax_step source c i s

-- One round of the loop of `CompilePattern`.
unfoldable pub pattern_step : (Bytes → Bool) → Bytes → ℕ → Check → Flow Check
pattern_step parse_hex source i s =
    byte_step parse_hex source (byte_at source i) s.after_anchor i
      (record s { after_anchor = false })

unfoldable pub check : (Bytes → Bool) → Bytes → Option Check
check parse_hex source =
    scan (length source + 1) (length source) (pattern_step parse_hex source) 0
      (record { in_class = false; after_anchor = false; failure = none })

-- The loop that drops the backslash of an escaped slash.
unfoldable pub unescape_slash : Bytes → Bytes
unescape_slash [] = []
unescape_slash (b ∷ []) = b ∷ []
unescape_slash (b ∷ c ∷ rest) =
    let pair = unescape_slash rest in
    let onward = unescape_slash (c ∷ rest) in
    if b == b'\\' then (if not (c == b'/') then b'\\' ∷ c ∷ pair else c ∷ pair) else b ∷ onward

pub data Compiled (P : Type 0) : Type 0 where
  pattern_of : P → Compiled P
  refused : PatternError → Compiled P

-- `CompilePattern`; `compile` is the library's parser and compiler with `normalizePattern` between,
-- `none` its error. Out of fuel is `none`.
unfoldable pub compile_pattern :
    {P : Type 0}
    → (Bytes → Bool)
    → (Bytes → Bool)
    → (Bytes → Option P)
    → Bytes
    → Option (Compiled P)
compile_pattern valid_string parse_hex compile source =
    if not (valid_string source)
    then some (refused not_unicode)
    else elim (check parse_hex source) [
      | none ↦ none
      | some s ↦ elim s.failure [
        | some e ↦ some (refused e)
        | none ↦
            if s.in_class
            then some (refused unterminated_class)
            else elim (compile (unescape_slash source)) [
              | none ↦ some (refused refused_by_parser)
              | some p ↦ some (pattern_of p)
            ]
      ]
    ]
