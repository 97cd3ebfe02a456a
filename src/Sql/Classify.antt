-- ===== src/Sql/Classify.antt =====
-- `ParameterName`, `Parameters`, `Classify` and the scans of internal/sqlsyntax/sql.go. The cursor
-- loops have one round of fuel more than the query has bytes.
pub mod Termination
mod Trivia
pub mod Single
use text.Mathlib.Text.{◌==◌ as str_eq}
use onprest.Prelude.{
  ℕ, zero, suc, ◌+◌, ◌-◌, Bool, true, false, not, ◌&&◌, ◌||◌, List, [], ◌∷◌, ◌++◌, map, Option,
  none, some, String, Bytes, codes, bytes_eq, ltb, leb, ◌==◌, if◌then◌else◌, length, take, drop,
}
use onprest.Prelude.Cursor.{Flow, goto, return, scan}
use onprest.Sql.Regions.{
  is_ident, is_digit, at, name_length, skip_quoted, is_postgres_escape_string_prefix,
  skip_bracket_identifier, is_oracle_alternative_quote_prefix, closing_of, skip_alternative,
  index_byte, skip_line_comment, skip_block, skip_block_comment, starts_with, index_of,
  skip_dollar_quote, protected_region_end,
}

pub data Operation : Type 0 where
  unknown select insert update delete : Operation

-- `o != "" && o != Select`.
abbrev mutation : Operation → Bool
mutation unknown = false
mutation select = false
mutation _ = true

pub record Classification : Type 0 where
  pub keyword : Bytes
  pub operation : Operation
  pub single : Bool
  pub returns_rows : Bool

-- A name at the start of the text and its length, which is 0 if there is none.
unfoldable pub parameter_name : Bytes → Bytes × ℕ
parameter_name [] = ([], 0)
parameter_name (c ∷ rest) =
    let i = 1 + name_length rest in if not (is_ident c) then ([], 0) else (take i (c ∷ rest), i)

-- One round of the loop of `Parameters`.
unfoldable pub parameters_step : String → Bytes → ℕ → List Bytes → Flow (List Bytes)
unfolding parameter_name
parameters_step driver query i names = elim (protected_region_end driver query i) [
  | some n ↦ goto n names
  | none ↦
      if at query i == b':'
      then if ltb (i + 1) (length query) && at query (i + 1) == b':'
        then goto (i + 2) names
        else (let (name, n) = parameter_name (drop (i + 1) query) in
            if ltb 0 n then goto (i + (n + 1)) (names ++ name ∷ []) else goto (i + 1) names)
      else goto (i + 1) names
]

unfoldable pub parameters : String → Bytes → Option (List Bytes)
unfolding scan protected_region_end is_ident is_digit name_length skip_quoted
    is_postgres_escape_string_prefix skip_bracket_identifier is_oracle_alternative_quote_prefix
    closing_of skip_alternative index_byte skip_line_comment skip_block skip_block_comment
    starts_with index_of skip_dollar_quote parameters_step
parameters driver query = scan (length query + 1) (length query) (parameters_step driver query) 0 []

-- A jump of the cursor of `onlySQLTrivia` to `next` is a count of bytes left to pass.
pub only_trivia : String → ℕ → Bytes → Bool
only_trivia driver passing [] = true
only_trivia driver (suc k) (c ∷ rest) = only_trivia driver k rest
only_trivia driver zero (c ∷ rest) =
    let line = only_trivia driver (skip_line_comment (c ∷ rest) 0 - 1) rest in
    let block = only_trivia driver (skip_block_comment driver (c ∷ rest) 0 - 1) rest in
    let onward = only_trivia driver 0 rest in
    if c == b' ' || c == b'\t' || c == b'\r' || c == b'\n'
    then onward
    else if ltb 1 (length (c ∷ rest)) && c == b'-' && at rest 0 == b'-'
    then line
    else if ltb 1 (length (c ∷ rest)) && c == b'/' && at rest 0 == b'*'
    then block
    else false

abbrev only_sql_trivia : String → Bytes → Bool
only_sql_trivia driver query = only_trivia driver 0 query

to_lower : ℕ → ℕ
to_lower c = if leb b'A' c && leb c b'Z' then c + 32 else c

abbrev pub Tokens : Type 0
Tokens = List Bytes × Bool

-- One round of the loop of `scanSQLTokens`.
pub tokens_step : String → Bytes → ℕ → Tokens → Flow Tokens
unfolding only_trivia to_lower
tokens_step driver query i (tokens, single) = elim (protected_region_end driver query i) [
  | some next ↦ goto next (tokens, single)
  | none ↦
      if at query i == b';'
      then goto (i + 1)
          (tokens, if not (only_sql_trivia driver (drop (i + 1) query)) then false else single)
      else if is_ident (at query i)
      then (let n = name_length (drop i query) in
          goto (i + n) (tokens ++ map to_lower (take n (drop i query)) ∷ [], single))
      else goto (i + 1) (tokens, single)
]

pub scan_sql_tokens : String → Bytes → Option Tokens
unfolding scan protected_region_end is_ident is_digit name_length skip_quoted
    is_postgres_escape_string_prefix skip_bracket_identifier is_oracle_alternative_quote_prefix
    closing_of skip_alternative index_byte skip_line_comment skip_block skip_block_comment
    starts_with index_of skip_dollar_quote tokens_step
scan_sql_tokens driver query =
    scan (length query + 1) (length query) (tokens_step driver query) 0 ([], true)

operation_of : Bytes → Operation
unfolding bytes_eq
operation_of keyword =
    if bytes_eq keyword (codes "select")
    then select
    else if bytes_eq keyword (codes "insert")
    then insert
    else if bytes_eq keyword (codes "update")
    then update
    else if bytes_eq keyword (codes "delete")
    then delete
    else unknown

-- The loop over the tokens behind the first.
any_returning : String → List Bytes → Bool
unfolding bytes_eq
any_returning driver [] = false
any_returning driver (token ∷ tokens) =
    bytes_eq token (codes "returning")
    || str_eq driver "sqlserver" && bytes_eq token (codes "output")
    || any_returning driver tokens

-- What `Classify` makes of the tokens.
classification : String → Tokens → Classification
unfolding operation_of any_returning
classification driver ([], single) = record {
  keyword = [];
  operation = unknown;
  single = single;
  returns_rows = false;
}
classification driver (keyword ∷ tokens, single) = record {
  keyword = keyword;
  operation = operation_of keyword;
  single = single;
  returns_rows = mutation (operation_of keyword) && any_returning driver tokens;
}

unfoldable pub classify : String → Bytes → Option Classification
unfolding scan_sql_tokens classification
classify driver query = elim (scan_sql_tokens driver query) [
  | none ↦ none
  | some tokens ↦ some (classification driver tokens)
]

-- One round of the loop of `hasSingleSQLStatement`; the state is what the loop returns at its end.
pub single_step : String → Bytes → ℕ → Bool → Flow Bool
unfolding only_trivia
single_step driver query i single = elim (protected_region_end driver query i) [
  | some next ↦ goto next single
  | none ↦
      if at query i == b';'
      then return (only_sql_trivia driver (drop (i + 1) query))
      else goto (i + 1) single
]

unfoldable pub has_single_sql_statement : String → Bytes → Option Bool
unfolding scan protected_region_end is_ident is_digit name_length skip_quoted
    is_postgres_escape_string_prefix skip_bracket_identifier is_oracle_alternative_quote_prefix
    closing_of skip_alternative index_byte skip_line_comment skip_block skip_block_comment
    starts_with index_of skip_dollar_quote single_step
has_single_sql_statement driver query =
    scan (length query + 1) (length query) (single_step driver query) 0 true
