-- ===== src/Sql/Regions/Bounds.antt =====
-- Every protected region is a nonempty part of the query.
use onprest.Prelude.{
  ℕ, ◌+◌, ◌-◌, ◌≤◌, ◌<◌, ◌≡◌, Bool, ◌==◌, true, false, ◌&&◌, ◌||◌, not, leb, refl, if◌then◌else◌,
  [], ◌∷◌, Option, none, some, inl, inr, Option-cases, String, Bytes, arith, length, drop, take,
  length-drop,
}
use text.Mathlib.Text.{◌==◌ as str_eq}
use onprest.Sql.Regions.{
  at, name_length, skip_quoted, skip_bracket_identifier, skip_alternative, index_byte,
  skip_line_comment, skip_block, skip_block_comment, starts_with, index_of, skip_dollar_quote,
  protected_region_end, is_oracle_alternative_quote_prefix, pair_at,
}

pub name_length-le : (s : Bytes) → name_length s ≤ length s
unfolding name_length
name_length-le [] = omega arith
name_length-le (c ∷ s) = ground (arith, name_length-le s)

skip_quoted-le : (quote : ℕ) (escapes : Bool) (s : Bytes) → skip_quoted quote escapes s ≤ length s
unfolding skip_quoted
skip_quoted-le quote escapes [] = omega arith
skip_quoted-le quote escapes (c ∷ []) = omega arith
skip_quoted-le quote escapes (c ∷ d ∷ s) =
    ground (arith, skip_quoted-le quote escapes s, skip_quoted-le quote escapes (d ∷ s))

skip_bracket_identifier-le : (s : Bytes) → skip_bracket_identifier s ≤ length s
unfolding skip_bracket_identifier
skip_bracket_identifier-le [] = omega arith
skip_bracket_identifier-le (c ∷ []) = omega arith
skip_bracket_identifier-le (c ∷ d ∷ s) =
    ground (arith, skip_bracket_identifier-le s, skip_bracket_identifier-le (d ∷ s))

skip_alternative-le : (closing : ℕ) (s : Bytes) → skip_alternative closing s ≤ length s
unfolding skip_alternative
skip_alternative-le closing [] = omega arith
skip_alternative-le closing (c ∷ []) = omega arith
skip_alternative-le closing (c ∷ d ∷ s) = ground (arith, skip_alternative-le closing (d ∷ s))

skip_block-le : (nests : Bool) (depth : ℕ) (s : Bytes) → skip_block nests depth s ≤ length s
unfolding skip_block
skip_block-le nests depth [] = omega arith
skip_block-le nests depth (c ∷ []) = omega arith
skip_block-le nests depth (c ∷ d ∷ s) = ground (
  arith,
  skip_block-le nests (depth + 1) s,
  skip_block-le nests (depth - 1) s,
  skip_block-le nests depth (d ∷ s),
)

index_byte-lt : (b : ℕ) (s : Bytes) (i : ℕ) → index_byte b s ≡ some i → i < length s
unfolding index_byte
index_byte-lt b [] i e = ground arith
index_byte-lt b (c ∷ s) i e = elim (Option-cases (index_byte b s)) [
  | inl missing ↦ ground arith
  | inr (j, found) ↦ ground (arith, index_byte-lt b s j found)
]

starts_with-le : (p s : Bytes) → starts_with p s ≡ true → length p ≤ length s
unfolding starts_with
starts_with-le [] s e = omega arith
starts_with-le (b ∷ p) [] e = ground arith
starts_with-le (b ∷ p) (c ∷ s) e = ground (arith, starts_with-le p s)

index_of-le : (p s : Bytes) (i : ℕ) → index_of p s ≡ some i → i + length p ≤ length s
unfolding index_of
index_of-le p [] i e = ground (arith, starts_with-le p [])
index_of-le p (c ∷ s) i e = elim (Option-cases (index_of p s)) [
  | inl missing ↦ ground (arith, starts_with-le p (c ∷ s))
  | inr (j, found) ↦ ground (arith, starts_with-le p (c ∷ s), index_of-le p s j found)
]

skip_line_comment_bounds :
    (query : Bytes) (start : ℕ)
    → start + 1 < length query
    → (start < skip_line_comment query start) × (skip_line_comment query start ≤ length query)
unfolding skip_line_comment
skip_line_comment_bounds query start h =
    elim (Option-cases (index_byte b'\n' (drop (start + 2) query))) [
      | inl missing ↦ rw (missing, skip_line_comment) (ground arith)
      | inr (i, found) ↦
          let fits = index_byte-lt b'\n' (drop (start + 2) query) i found in
          rw (found, skip_line_comment) (omega (arith, length-drop {0} (start + 2) query))
    ]

pub data Within (start len : ℕ) : Option ℕ → Type 0 where
  outside : Within start len none
  ends : {e : ℕ} → start < e → e ≤ len → Within start len (some e)

Within-if :
    {start len : ℕ} (c : Bool) (x y : Option ℕ)
    → (c ≡ true → Within start len x)
    → Within start len y
    → Within start len (if c then x else y)
Within-if true x y h k = h refl
Within-if false x y h k = k

Within-unless :
    {start len : ℕ} (c : Bool) (e : ℕ)
    → (c ≡ false → (start < e) × (e ≤ len))
    → Within start len (if c then none else some e)
Within-unless true e h = outside
Within-unless false e h = ends (h refl).0 (h refl).1

skip_dollar_quote_bounds :
    (query : Bytes) (start : ℕ)
    → start < length query
    → Within start (length query) (skip_dollar_quote query start)
unfolding skip_dollar_quote
skip_dollar_quote_bounds query start h =
    let end_tag : ℕ = start + 1 + name_length (drop (start + 1) query) in
    let tag : Bytes = take (end_tag + 1 - start) (drop start query) in
    elim (Option-cases (index_of tag (drop (end_tag + 1) query))) [
      | inl missing ↦ rw missing (
          Within-unless (leb (length query) end_tag || not (at query end_tag == b'$')) _
            (λ c. omega arith))
      | inr (i, found) ↦
          let fits = index_of-le tag (drop (end_tag + 1) query) i found in
          rw found (
            Within-unless (leb (length query) end_tag || not (at query end_tag == b'$')) _
              (λ c. ground (arith, length-drop (end_tag + 1) query, fits)))
    ]

oracle_fits :
    (driver : Bool) (query : Bytes) (start : ℕ)
    → driver && is_oracle_alternative_quote_prefix query start ≡ true
    → start + 2 < length query
unfolding is_oracle_alternative_quote_prefix
oracle_fits driver query start h = ground arith

pair_fits :
    (query : Bytes) (start c d : ℕ) → pair_at query start c d ≡ true → start + 1 < length query
pair_fits query start c d h = ground arith

-- A region that skips `n` bytes and then part of the rest.
skipped_within :
    (query : Bytes) (start n skipped : ℕ)
    → 0 < n
    → start + n ≤ length query
    → skipped ≤ length (drop (start + n) query)
    → Within start (length query) (some (start + n + skipped))
skipped_within query start n skipped p h k =
    ends (omega arith) (omega (arith, length-drop {0} (start + n) query))

pub protected_region_end-Within :
    (driver : String) (query : Bytes) (start : ℕ)
    → start < length query
    → Within start (length query) (protected_region_end driver query start)
unfolding protected_region_end skip_block_comment
protected_region_end-Within driver query start h =
    Within-if (at query start == b'\'') _ _ (λ c. quoted (skip_quoted-le _ _ _))
      (Within-if (at query start == b'"') _ _ (λ c. quoted (skip_quoted-le b'"' false _))
        (Within-if (str_eq driver "mysql" && at query start == b'`') _ _
          (λ c. quoted (skip_quoted-le b'`' false _))
          (Within-if (str_eq driver "sqlserver" && at query start == b'[') _ _
            (λ c. quoted (skip_bracket_identifier-le _))
            (Within-if (str_eq driver "oracle" && is_oracle_alternative_quote_prefix query start) _
              _
              (λ c.
                skipped_within query start 3 _ (omega arith)
                  (omega (arith, oracle_fits _ query start c)) (skip_alternative-le _ _))
              (Within-if (pair_at query start b'-' b'-') _ _
                (λ c. line (skip_line_comment_bounds query start (pair_fits query start _ _ c)))
                (Within-if (pair_at query start b'/' b'*') _ _
                  (λ c.
                    skipped_within query start 2 _ (omega arith)
                      (omega (arith, pair_fits query start _ _ c)) (skip_block-le _ _ _))
                  (Within-if (str_eq driver "postgres" && at query start == b'$') _ _
                    (λ c. skip_dollar_quote_bounds query start h) outside)))))))
  where
    line : {e : ℕ} → (start < e) × (e ≤ length query) → Within start (length query) (some e)
    line b = ends b.0 b.1

    quoted :
        {skipped : ℕ}
        → skipped ≤ length (drop (start + 1) query)
        → Within start (length query) (some (start + 1 + skipped))
    quoted {skipped} = skipped_within query start 1 skipped (omega arith) (omega arith)

Within_ends :
    {start len : ℕ} (o : Option ℕ) (e : ℕ)
    → Within start len o
    → o ≡ some e
    → (start < e) × (e ≤ len)
Within_ends _ e outside h = cc
Within_ends _ e (ends a b) h = ground arith

-- A protected region that begins inside the query is not empty and ends inside it, for every
-- driver.
pub protected_region_end_bounds :
    (driver : String) (query : Bytes) (start e : ℕ)
    → start < length query
    → protected_region_end driver query start ≡ some e
    → (start < e) × (e ≤ length query)
protected_region_end_bounds driver query start e h =
    Within_ends _ e (protected_region_end-Within driver query start h)
