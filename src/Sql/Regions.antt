-- ===== src/Sql/Regions.antt =====
-- The protected regions of internal/sqlsyntax/sql.go: quoted text and comments, by driver.
-- A `for` loop over the rest of the query is a recursion on that rest, which returns the number of
-- bytes it passes; an index below is one into the whole query.
pub mod Bounds
use text.Mathlib.Text.{◌==◌ as str_eq}
use onprest.Prelude.{
  ℕ, zero, suc, ◌+◌, ◌-◌, Bool, true, false, not, ◌&&◌, ◌||◌, List, [], ◌∷◌, ◌++◌, Option, none,
  some, String, Bytes, codes, ltb, leb, ◌==◌, if◌then◌else◌, length, get_or, take, drop,
}

unfoldable pub is_ident : ℕ → Bool
is_ident b = b == b'_' || leb b'a' b && leb b b'z' || leb b'A' b && leb b b'Z'

unfoldable pub is_digit : ℕ → Bool
is_digit b = leb b'0' b && leb b b'9'

-- `query[i]`; every use below stands behind a bounds check of the source.
abbrev pub at : Bytes → ℕ → ℕ
at query i = get_or query i 0

-- How many of the first bytes may continue a name.
unfoldable pub name_length : Bytes → ℕ
name_length [] = 0
name_length (c ∷ rest) =
    let more = name_length rest in if is_ident c || is_digit c then suc more else 0

-- The rest of a quoted region, behind its opening quote.
unfoldable pub skip_quoted : ℕ → Bool → Bytes → ℕ
skip_quoted quote escapes [] = 0
skip_quoted quote escapes (c ∷ []) = 1
skip_quoted quote escapes (c ∷ d ∷ rest) =
    let over = skip_quoted quote escapes rest in
    let onward = skip_quoted quote escapes (d ∷ rest) in
    if escapes && c == b'\\'
    then 2 + over
    else if not (c == quote)
    then 1 + onward
    else if d == quote
    then 2 + over
    else 1

unfoldable pub is_postgres_escape_string_prefix : Bytes → ℕ → Bool
is_postgres_escape_string_prefix query quote =
    if quote == 0 || not (at query (quote - 1) == b'e') && not (at query (quote - 1) == b'E')
    then false
    else quote == 1 || not (is_ident (at query (quote - 2)))

unfoldable pub skip_bracket_identifier : Bytes → ℕ
skip_bracket_identifier [] = 0
skip_bracket_identifier (c ∷ []) = 1
skip_bracket_identifier (c ∷ d ∷ rest) =
    let over = skip_bracket_identifier rest in
    let onward = skip_bracket_identifier (d ∷ rest) in
    if not (c == b']') then 1 + onward else if d == b']' then 2 + over else 1

unfoldable pub is_oracle_alternative_quote_prefix : Bytes → ℕ → Bool
is_oracle_alternative_quote_prefix query quote =
    if leb (length query) (quote + 2)
      || not (at query quote == b'q') && not (at query quote == b'Q')
      || not (at query (quote + 1) == b'\'')
    then false
    else quote == 0 || not (is_ident (at query (quote - 1)))

-- The byte that closes `q'<opening>…`.
unfoldable pub closing_of : ℕ → ℕ
closing_of opening =
    if opening == b'['
    then b']'
    else if opening == b'('
    then b')'
    else if opening == b'{'
    then b'}'
    else if opening == b'<'
    then b'>'
    else opening

-- The rest of an alternative quote, behind its opening byte.
unfoldable pub skip_alternative : ℕ → Bytes → ℕ
skip_alternative closing [] = 0
skip_alternative closing (c ∷ []) = 1
skip_alternative closing (c ∷ d ∷ rest) =
    let onward = skip_alternative closing (d ∷ rest) in
    if c == closing && d == b'\'' then 2 else 1 + onward

-- `strings.IndexByte`.
unfoldable pub index_byte : ℕ → Bytes → Option ℕ
index_byte b [] = none
index_byte b (c ∷ rest) =
    if c == b then some 0 else elim (index_byte b rest) [ none ↦ none | some i ↦ some (suc i) ]

unfoldable pub skip_line_comment : Bytes → ℕ → ℕ
skip_line_comment query start = elim (index_byte b'\n' (drop (start + 2) query)) [
  | some end ↦ start + 2 + end + 1
  | none ↦ length query
]

-- The rest of a block comment at nesting `depth`, behind its opening pair.
unfoldable pub skip_block : Bool → ℕ → Bytes → ℕ
skip_block nests depth [] = 0
skip_block nests depth (c ∷ []) = 1
skip_block nests depth (c ∷ d ∷ rest) =
    let deeper = skip_block nests (depth + 1) rest in
    let shallower = skip_block nests (depth - 1) rest in
    let onward = skip_block nests depth (d ∷ rest) in
    if c == b'/' && d == b'*' && nests
    then 2 + deeper
    else if c == b'*' && d == b'/'
    then (if depth - 1 == 0 then 2 else 2 + shallower)
    else 1 + onward

abbrev pub nests_comments : String → Bool
nests_comments driver = str_eq driver "postgres" || str_eq driver "sqlserver"

unfoldable pub skip_block_comment : String → Bytes → ℕ → ℕ
skip_block_comment driver query start =
    start + 2 + skip_block (nests_comments driver) 1 (drop (start + 2) query)

unfoldable pub starts_with : Bytes → Bytes → Bool
starts_with [] text = true
starts_with (p ∷ prefix) [] = false
starts_with (p ∷ prefix) (c ∷ text) = p == c && starts_with prefix text

-- `strings.Index`.
unfoldable pub index_of : Bytes → Bytes → Option ℕ
index_of tag [] = if starts_with tag [] then some 0 else none
index_of tag (c ∷ rest) =
    if starts_with tag (c ∷ rest)
    then some 0
    else elim (index_of tag rest) [ none ↦ none | some i ↦ some (suc i) ]

-- `none` for the result `(start, false)`.
unfoldable pub skip_dollar_quote : Bytes → ℕ → Option ℕ
skip_dollar_quote query start =
    let end_tag = start + 1 + name_length (drop (start + 1) query) in
    if leb (length query) end_tag || not (at query end_tag == b'$')
    then none
    else let tag = take (end_tag + 1 - start) (drop start query) in
      elim (index_of tag (drop (end_tag + 1) query)) [
        | none ↦ some (length query)
        | some end ↦ some (end_tag + 1 + end + length tag)
      ]

-- The bytes at `i` and `i + 1` are these.
abbrev pub pair_at : Bytes → ℕ → ℕ → ℕ → Bool
pair_at query i c d = ltb (i + 1) (length query) && at query i == c && at query (i + 1) == d

-- The end of the protected region at `start`, if one begins there.
unfoldable pub protected_region_end : String → Bytes → ℕ → Option ℕ
protected_region_end driver query start =
    if at query start == b'\''
    then some (
        start
        + 1
        + skip_quoted b'\''
            (str_eq driver "postgres" && is_postgres_escape_string_prefix query start)
            (drop (start + 1) query))
    else if at query start == b'"'
    then some (start + 1 + skip_quoted b'"' false (drop (start + 1) query))
    else if str_eq driver "mysql" && at query start == b'`'
    then some (start + 1 + skip_quoted b'`' false (drop (start + 1) query))
    else if str_eq driver "sqlserver" && at query start == b'['
    then some (start + 1 + skip_bracket_identifier (drop (start + 1) query))
    else if str_eq driver "oracle" && is_oracle_alternative_quote_prefix query start
    then some
        (start + 3 + skip_alternative (closing_of (at query (start + 2))) (drop (start + 3) query))
    else if pair_at query start b'-' b'-'
    then some (skip_line_comment query start)
    else if pair_at query start b'/' b'*'
    then some (skip_block_comment driver query start)
    else if str_eq driver "postgres" && at query start == b'$'
    then skip_dollar_quote query start
    else none
