-- ===== src/Sql/Classify/Single.antt =====
-- `Classify` and `hasSingleSQLStatement` decide alike whether a text is one statement.
use text.Mathlib.Text.{◌==◌ as str_eq}
use onprest.Prelude.{
  some_inj, ℕ, zero, suc, ◌+◌, ◌≤◌, ◌<◌, ◌≡◌, refl, sym, ap, ◌∙◌, ◌⊎◌, inl, inr, Bool, true, false,
  ◌||◌, ◌==◌, [], ◌∷◌, Option, none, some, Option-cases, Bool-cases, String, Bytes, arith, length,
  drop, length-drop,
}
use onprest.Prelude.Cursor.{
  Flow, goto, return, Keeps, scan, scan_inv, scan_fuel, scan-goto, scan-return, scan_end,
}
use onprest.Sql.Regions.{is_ident, is_digit, at, name_length, protected_region_end}
use onprest.Sql.Regions.Bounds.{name_length-le}
use onprest.Sql.Classify.{
  Classification, classification, Tokens, only_trivia, tokens_step, scan_sql_tokens, classify,
  single_step, has_single_sql_statement,
}
use onprest.Sql.Classify.Termination.{single_step-lt, scan_sql_tokens_total, has_single_total}
use onprest.Sql.Classify.Trivia.{trivia_step}

name_byte :
    (s : Bytes) (m : ℕ) → m < name_length s → (is_ident (at s m) || is_digit (at s m)) ≡ true
unfolding name_length
name_byte [] m h = absurd (omega arith)
name_byte (c ∷ s) zero h = ground arith
name_byte (c ∷ s) (suc m) h = name_byte s m (ground arith)

at-drop : (s : Bytes) (k m : ℕ) → at (drop k s) m ≡ at s (k + m)
at-drop s zero m = let e : m ≡ zero + m = omega arith in ap (at s) e
at-drop [] (suc k) m = refl
at-drop (c ∷ s) (suc k) m =
    let e : suc (k + m) ≡ suc k + m = omega arith in at-drop s k m ∙ ap (at (c ∷ s)) e

name_not_region :
    (c : ℕ)
    → (is_ident c || is_digit c) ≡ true
    → ((c == b'\'') ≡ false)
      × ((c == b'"') ≡ false)
      × ((c == b'`') ≡ false)
      × ((c == b'[') ≡ false)
      × ((c == b'-') ≡ false)
      × ((c == b'/') ≡ false)
      × ((c == b'$') ≡ false)
      × ((c == b';') ≡ false)
unfolding is_ident is_digit
name_not_region c h = ground arith

region_name :
    (driver : String) (query : Bytes) (k : ℕ)
    → str_eq driver "oracle" ≡ false
    → (is_ident (at query k) || is_digit (at query k)) ≡ true
    → protected_region_end driver query k ≡ none
unfolding protected_region_end
region_name driver query k d h =
    let f = name_not_region (at query k) h in
    rw (f.0, f.1, f.2, f.3, f.4, f.5, f.6, d, protected_region_end) (ground arith)

weaken :
    {P P' : ℕ → Tokens → Type 0} {R R' : Tokens → Type 0} (w : Flow Tokens)
    → ((k : ℕ) (s : Tokens) → P k s → P' k s)
    → ((s : Tokens) → R s → R' s)
    → Keeps P R w
    → Keeps P' R' w
weaken (goto k s) p r h = p k s h
weaken (return s) p r h = r s h

module _ (driver : String) (query : Bytes) where
  abbrev OnlyTrivia : ℕ → Tokens → Type 0
  OnlyTrivia k s = (s.1 ≡ true) × (only_trivia driver 0 (drop k query) ≡ true)

  -- Trivia to the end of the query leaves the flag as it is.
  Keeps-single :
      (k : ℕ) (s : Tokens)
      → k < length query
      → OnlyTrivia k s
      → Keeps OnlyTrivia (λ v. v.1 ≡ true) (tokens_step driver query k s)
  unfolding tokens_step is_ident
  Keeps-single k s h (single, t) = elim (Option-cases (protected_region_end driver query k)) [
    | inl missing ↦ ground (arith, (trivia_step driver query k h t).plain missing)
    | inr (e, found) ↦ ground (arith, (trivia_step driver query k h t).jump e found)
  ]

  -- Once a second statement was met the flag stays down.
  Keeps-several :
      (k : ℕ) (s : Tokens)
      → k < length query
      → s.1 ≡ false
      → Keeps (λ _ v. v.1 ≡ false) (λ v. v.1 ≡ false) (tokens_step driver query k s)
  unfolding tokens_step
  Keeps-several k s h several = elim (Option-cases (protected_region_end driver query k)) [
    | inl missing ↦ ground arith
    | inr (e, found) ↦ ground arith
  ]

  scan_trivia :
      (f k : ℕ) (s v : Tokens)
      → OnlyTrivia k s
      → scan f (length query) (tokens_step driver query) k s ≡ some v
      → v.1 ≡ true
  scan_trivia f k s v =
      scan_inv OnlyTrivia (λ u. u.1 ≡ true) _ _ Keeps-single (λ i u past p. p.0) f k s

  scan_several :
      (f k : ℕ) (s v : Tokens)
      → s.1 ≡ false
      → scan f (length query) (tokens_step driver query) k s ≡ some v
      → v.1 ≡ false
  scan_several f k s v =
      scan_inv (λ _ u. u.1 ≡ false) (λ u. u.1 ≡ false) _ _ Keeps-several (λ i u past p. p) f k s

  -- What `hasSingleSQLStatement` would return with the cursor at `k`.
  single_from : ℕ → Option Bool
  single_from k = scan (length query + 1) (length query) (single_step driver query) k true

  single_from-goto :
      (k j : ℕ)
      → k < length query
      → single_step driver query k true ≡ goto j true
      → single_from k ≡ single_from j
  unfolding single_from
  single_from-goto k j h e =
      let ahead = single_step-lt driver query k true j true h e in
      let one : length query + 1 ≡ suc (length query) = omega arith in
      rw one (
        scan-goto (length query) (length query) _ k true h e
        ∙ scan_fuel _ _ (single_step-lt driver query) (length query) (suc (length query)) j true
            (omega arith) (omega arith))

  single_from-return :
      (k : ℕ) (b : Bool)
      → k < length query
      → single_step driver query k true ≡ return b
      → single_from k ≡ some b
  unfolding single_from
  single_from-return k b h e =
      let one : length query + 1 ≡ suc (length query) = omega arith in
      rw one (scan-return (length query) (length query) _ k true h e)

  single_from_end : (k : ℕ) → length query ≤ k → single_from k ≡ some true
  unfolding single_from
  single_from_end k h =
      let one : length query + 1 ≡ suc (length query) = omega arith in
      rw one (scan_end (length query) (length query) _ k true h)

  -- The scan that reads byte by byte gets past a name, too.
  single_from_name :
      (m k : ℕ)
      → str_eq driver "oracle" ≡ false
      → m ≤ name_length (drop k query)
      → single_from k ≡ single_from (k + m)
  unfolding single_step
  single_from_name zero k d h = let e : k ≡ k + zero = omega arith in ap single_from e
  single_from_name (suc m) k d h =
      let inside : k + m < length query =
        omega (arith, name_length-le (drop k query), length-drop {0} k query) in
      let byte = rw at-drop at (name_byte (drop k query) m (omega arith)) in
      let missing = region_name driver query (k + m) d byte in
      let e : k + m + 1 ≡ k + suc m = omega arith in
      single_from_name m k d (omega arith)
      ∙ single_from-goto (k + m) (k + m + 1) inside
          (rw (missing, single_step) (ground (arith, name_not_region (at query (k + m)) byte)))
      ∙ ap single_from e

  module _ (oracle : str_eq driver "oracle" ≡ false) (b : Bool) where
    -- How the state of `scanSQLTokens` stands to the result `b` of `hasSingleSQLStatement`.
    abbrev Follows : ℕ → Tokens → Type 0
    Follows k s =
        ((s.1 ≡ true) × (single_from k ≡ some b))
        ⊎ ((s.1 ≡ false) × (b ≡ false))
        ⊎ (OnlyTrivia k s × (b ≡ true))

    Keeps-open :
        (k : ℕ) (s : Tokens)
        → k < length query
        → s.1 ≡ true
        → single_from k ≡ some b
        → Keeps Follows (λ v. v.1 ≡ b) (tokens_step driver query k s)
    unfolding tokens_step single_step
    Keeps-open k s h single from = elim (Option-cases (protected_region_end driver query k)) [
      | inr (e, found) ↦
          rw (found, tokens_step)
            (inl (single, sym (single_from-goto k e h (rw (found, single_step))) ∙ from))
      | inl missing ↦ elim (Bool-cases (at query k == b';')) [
        | inl semi ↦
            let tail = only_trivia driver 0 (drop (k + 1) query) in
            let same : some tail ≡ some b =
              sym (single_from-return k tail h (rw (missing, semi, single_step))) ∙ from in
            elim (Bool-cases tail) [
              | inl clean ↦
                  rw (missing, semi, clean, tokens_step) (inr (inr ((single, refl), ground arith)))
              | inr more ↦ rw (missing, semi, more, tokens_step) (inr (inl (refl, ground arith)))
            ]
        | inr other ↦ elim (Bool-cases (is_ident (at query k))) [
          | inl ident ↦
              let le_name : name_length (drop k query) ≤ name_length (drop k query) = omega arith in
              rw (missing, other, ident, tokens_step)
                (inl (single, sym (single_from_name _ k oracle le_name) ∙ from))
          | inr plain ↦
              rw (missing, other, plain, tokens_step)
                (inl (
                  single,
                  sym (single_from-goto k (k + 1) h (rw (missing, other, single_step))) ∙ from,
                ))
        ]
      ]
    ]

    Keeps-Follows :
        (k : ℕ) (s : Tokens)
        → k < length query
        → Follows k s
        → Keeps Follows (λ v. v.1 ≡ b) (tokens_step driver query k s)
    Keeps-Follows k s h (inl (single, from)) = Keeps-open k s h single from
    Keeps-Follows k s h (inr (inl (several, e))) =
        weaken (tokens_step driver query k s) (λ (j : ℕ) v p. inr (inl (p, e))) (λ v p. p ∙ sym e)
          (Keeps-several k s h several)
    Keeps-Follows k s h (inr (inr (p, e))) =
        weaken (tokens_step driver query k s) (λ (j : ℕ) v p. inr (inr (p, e))) (λ v p. p ∙ sym e)
          (Keeps-single k s h p)

    Follows-end : (k : ℕ) (s : Tokens) → length query ≤ k → Follows k s → s.1 ≡ b
    Follows-end k s h (inl (single, from)) =
        let ended : some true ≡ some b = sym (single_from_end k h) ∙ from in ground arith
    Follows-end k s h (inr (inl (several, e))) = several ∙ sym e
    Follows-end k s h (inr (inr (p, e))) = p.0 ∙ sym e

  single_from_start : has_single_sql_statement driver query ≡ single_from 0
  unfolding has_single_sql_statement single_from
  single_from_start = refl

  scan_sql_tokens-single :
      str_eq driver "oracle" ≡ false
      → (b : Bool) (tokens : Tokens) → has_single_sql_statement driver query ≡ some b
      → scan_sql_tokens driver query ≡ some tokens
      → tokens.1 ≡ b
  unfolding scan_sql_tokens
  scan_sql_tokens-single oracle b tokens single scanned =
      scan_inv (Follows oracle b) (λ v. v.1 ≡ b) _ _ (Keeps-Follows oracle b) (Follows-end oracle b)
        (length query + 1) 0 ([], true) (inl (refl, sym single_from_start ∙ single)) scanned

  classification-single : (tokens : Tokens) → (classification driver tokens).single ≡ tokens.1
  unfolding classification
  classification-single ([], single) = refl
  classification-single (keyword ∷ tokens, single) = refl

  classified :
      (tokens : Tokens) (c : Classification)
      → scan_sql_tokens driver query ≡ some tokens
      → classify driver query ≡ some c
      → classification driver tokens ≡ c
  unfolding classify
  classified tokens c scanned e = some_inj (rw (scanned, classify) at e)

  -- For every driver but Oracle, where Classify gives a classification, hasSingleSQLStatement gives
  -- that classification's single flag.
  pub classify-has_single :
      str_eq driver "oracle" ≡ false
      → (c : Classification) → classify driver query ≡ some c
      → has_single_sql_statement driver query ≡ some c.single
  classify-has_single oracle c e =
      let (b, single) = has_single_total driver query in
      let (tokens, scanned) = scan_sql_tokens_total driver query in
      let made : classification driver tokens ≡ c = classified tokens c scanned e in
      single
      ∙ ap some (
          sym (scan_sql_tokens-single oracle b tokens single scanned)
          ∙ sym (classification-single tokens)
          ∙ ap (λ (d : Classification). d.single) made)
