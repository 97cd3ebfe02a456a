-- ===== src/Sql/Classify/Termination.antt =====
-- The loops of internal/sqlsyntax/sql.go end: each round moves the cursor forward.
use onprest.Prelude.{
  ℕ, zero, suc, ◌+◌, ◌<◌, ◌≡◌, Bool, true, List, [], ◌∷◌, some, inl, inr, Option-cases, String,
  Bytes, arith, length, drop,
}
use onprest.Prelude.Cursor.{goto, scan_total}
use onprest.Sql.Regions.{is_ident, at, protected_region_end, name_length}
use onprest.Sql.Regions.Bounds.{protected_region_end_bounds}
use onprest.Sql.Classify.{
  Classification, classification, Tokens, parameters_step, parameters, tokens_step, scan_sql_tokens,
  classify, single_step, has_single_sql_statement,
}

-- A name has at least the byte that begins it.
name_length-pos :
    (query : Bytes) (i : ℕ)
    → i < length query
    → is_ident (at query i) ≡ true
    → 0 < name_length (drop i query)
unfolding name_length
name_length-pos [] i h e = absurd (omega arith)
name_length-pos (c ∷ query) zero h e = ground arith
name_length-pos (c ∷ query) (suc i) h e = name_length-pos query i (omega arith) e

module _ (driver : String) (query : Bytes) where
  pub parameters_step-lt :
      (i : ℕ) (s : List Bytes) (j : ℕ) (t : List Bytes)
      → i < length query
      → parameters_step driver query i s ≡ goto j t
      → i < j
  unfolding parameters_step
  parameters_step-lt i s j t h e = elim (Option-cases (protected_region_end driver query i)) [
    | inl plain ↦ ground arith
    | inr (n, found) ↦ ground (arith, protected_region_end_bounds driver query i n)
  ]

  pub tokens_step-lt :
      (i : ℕ) (s : Tokens) (j : ℕ) (t : Tokens)
      → i < length query
      → tokens_step driver query i s ≡ goto j t
      → i < j
  unfolding tokens_step
  tokens_step-lt i s j t h e = elim (Option-cases (protected_region_end driver query i)) [
    | inl plain ↦ ground (arith, name_length-pos query i h)
    | inr (n, found) ↦ ground (arith, protected_region_end_bounds driver query i n)
  ]

  pub single_step-lt :
      (i : ℕ) (s : Bool) (j : ℕ) (t : Bool)
      → i < length query
      → single_step driver query i s ≡ goto j t
      → i < j
  unfolding single_step
  single_step-lt i s j t h e = elim (Option-cases (protected_region_end driver query i)) [
    | inl plain ↦ ground arith
    | inr (n, found) ↦ ground (arith, protected_region_end_bounds driver query i n)
  ]

  -- Parameters returns a result on every query, for every driver.
  pub parameters_total : (names : List Bytes) × (parameters driver query ≡ some names)
  unfolding parameters
  parameters_total = scan_total _ _ parameters_step-lt (length query + 1) 0 _ (omega arith)

  -- `scanSQLTokens` returns on every query.
  pub scan_sql_tokens_total : (tokens : Tokens) × (scan_sql_tokens driver query ≡ some tokens)
  unfolding scan_sql_tokens
  scan_sql_tokens_total = scan_total _ _ tokens_step-lt (length query + 1) 0 _ (omega arith)

  -- Classify returns a result on every query, for every driver.
  pub classify_total : (c : Classification) × (classify driver query ≡ some c)
  unfolding classify
  classify_total =
      let (tokens, e) = scan_sql_tokens_total in (classification driver tokens, rw (e, classify))

  pub has_single_total : (b : Bool) × (has_single_sql_statement driver query ≡ some b)
  unfolding has_single_sql_statement
  has_single_total = scan_total _ _ single_step-lt (length query + 1) 0 _ (omega arith)
