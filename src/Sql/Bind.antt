-- ===== src/Sql/Bind.antt =====
-- `buildSQL` of internal/agent/sql.go. A parameter's value has any type `V`, and the caller's map
-- is a function into `Option V`.
mod Rounds
pub mod Agree
pub mod Unchanged
use text.Mathlib.Text.{◌==◌ as str_eq}
use onprest.Prelude.{
  ℕ, zero, suc, ◌+◌, ◌-◌, ◌/◌, ◌%◌, Bool, true, false, ◌&&◌, List, [], ◌∷◌, ◌++◌, Option, none,
  some, String, Bytes, codes, ltb, ◌==◌, if◌then◌else◌, length, take, drop,
}
use onprest.Prelude.Cursor.{Flow, goto, return, scan}
use onprest.Sql.Regions.{
  is_ident, is_digit, at, name_length, skip_quoted, is_postgres_escape_string_prefix,
  skip_bracket_identifier, is_oracle_alternative_quote_prefix, closing_of, skip_alternative,
  index_byte, skip_line_comment, skip_block, skip_block_comment, starts_with, index_of,
  skip_dollar_quote, protected_region_end,
}
use onprest.Sql.Classify.{parameter_name}

-- `%d`. The fuel is one more than the number, which has fewer digits.
digits_from : ℕ → ℕ → Bytes → Bytes
digits_from zero n out = out
digits_from (suc f) n out =
    let next = (b'0' + n % 10) ∷ out in
    let more = digits_from f (n / 10) next in if n / 10 == 0 then next else more

decimal : ℕ → Bytes
decimal n = digits_from (n + 1) n []

pub placeholder : String → ℕ → Bytes
placeholder driver idx =
    if str_eq driver "postgres"
    then b'$' ∷ decimal idx
    else if str_eq driver "sqlserver"
    then codes "@p" ++ decimal idx
    else if str_eq driver "oracle"
    then b':' ∷ decimal idx
    else codes "?"

pub data BindError : Type 0 where
  sql_is_empty : BindError
  missing_sql_param : Bytes → BindError

pub record Bound (V : Type 0) : Type 0 where
  pub out : Bytes
  pub args : List V
  pub count : ℕ

pub data BindResult (V : Type 0) : Type 0 where
  ok : Bound V → BindResult V
  err : BindError → BindResult V

module _ {V : Type 0} where
  -- A parameter `name` of `n` bytes behind the colon at `p`.
  pub bind_parameter : String → (Bytes → Option V) → ℕ → Bytes → ℕ → Bound V → Flow (BindResult V)
  bind_parameter driver params p name n b = elim (params name) [
    | none ↦ return (err (missing_sql_param name))
    | some v ↦ goto (p + (1 + n)) (
        ok (record b {
          args = b.args ++ v ∷ [];
          count = b.count + 1;
          out = b.out ++ placeholder driver (b.count + 1);
        }))
  ]

  copied : Bytes → ℕ → ℕ → Bound V → BindResult V
  copied query p next b = ok (record b { out = b.out ++ take (next - p) (drop p query) })

  -- One round of the loop of `buildSQL`.
  pub build_step : String → Bytes → (Bytes → Option V) → ℕ → BindResult V → Flow (BindResult V)
  unfolding copied
  build_step driver query params p (err e) = return (err e)
  build_step driver query params p (ok b) = elim (protected_region_end driver query p) [
    | some next ↦ goto next (copied query p next b)
    | none ↦
        if at query p == b':'
        then if ltb (p + 1) (length query) && at query (p + 1) == b':'
          then goto (p + 2) (ok (record b { out = b.out ++ codes "::" }))
          else (let (name, n) = parameter_name (drop (p + 1) query) in
              if ltb 0 n
              then bind_parameter driver params p name n b
              else goto (p + 1) (ok (record b { out = b.out ++ at query p ∷ [] })))
        else goto (p + 1) (ok (record b { out = b.out ++ at query p ∷ [] }))
  ]

  unfoldable pub build_sql : String → Bytes → (Bytes → Option V) → Option (BindResult V)
  unfolding scan protected_region_end is_ident is_digit name_length skip_quoted
      is_postgres_escape_string_prefix skip_bracket_identifier is_oracle_alternative_quote_prefix
      closing_of skip_alternative index_byte skip_line_comment skip_block skip_block_comment
      starts_with index_of skip_dollar_quote parameter_name digits_from decimal placeholder
      bind_parameter build_step
  build_sql driver query params =
      if length query == 0
      then some (err sql_is_empty)
      else scan (length query + 1) (length query) (build_step driver query params) 0
          (ok (record { out = []; args = []; count = 0 }))
