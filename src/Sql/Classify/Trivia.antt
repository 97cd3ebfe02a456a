-- ===== src/Sql/Classify/Trivia.antt =====
-- Trivia behind a `;`: every scan passes it over, and meets no other `;` and no name.
use onprest.Prelude.{
  ℕ, zero, suc, ◌+◌, ◌-◌, ◌≤◌, ◌<◌, ◌≡◌, refl, sym, ap, ◌∙◌, ◌⊎◌, inl, inr, true, [], ◌∷◌, none,
  some, Option-cases, String, Bytes, arith, length, drop, length-drop, drop-lt, drop-drop,
}
use onprest.Sql.Regions.{
  at, is_oracle_alternative_quote_prefix, protected_region_end, skip_line_comment, index_byte,
  skip_block_comment,
}
use onprest.Sql.Regions.Bounds.{protected_region_end_bounds}
use onprest.Sql.Classify.{only_trivia}

only_trivia-drop :
    (driver : String) (m : ℕ) (s : Bytes) → only_trivia driver m s ≡ only_trivia driver 0 (drop m s)
unfolding only_trivia
only_trivia-drop driver zero s = refl
only_trivia-drop driver (suc m) [] = refl
only_trivia-drop driver (suc m) (c ∷ s) = only_trivia-drop driver m s

skip_line_comment-drop :
    (s : Bytes) (k : ℕ) → k ≤ length s → skip_line_comment s k ≡ k + skip_line_comment (drop k s) 0
unfolding skip_line_comment
skip_line_comment-drop s k h = elim (Option-cases (index_byte b'\n' (drop (k + 2) s))) [
  | inl missing ↦ ground (arith, length-drop k s, drop-drop 2 k s)
  | inr (i, found) ↦ ground (arith, length-drop k s, drop-drop 2 k s)
]

skip_block_comment-drop :
    (driver : String) (s : Bytes) (k : ℕ)
    → skip_block_comment driver s k ≡ k + skip_block_comment driver (drop k s) 0
unfolding skip_block_comment
skip_block_comment-drop driver s k =
    let e : drop (0 + 2) (drop k s) ≡ drop (k + 2) s = drop-drop 2 k s in rw e (omega arith)

abbrev pub IsSpace : ℕ → Type 0
IsSpace c = (c ≡ b' ') ⊎ (c ≡ b'\t') ⊎ (c ≡ b'\r') ⊎ (c ≡ b'\n')

-- What a nonempty text of trivia begins with.
data Trivia (driver : String) (c : ℕ) (rest : Bytes) : Type 0 where
  space : IsSpace c → only_trivia driver 0 rest ≡ true → Trivia driver c rest
  line :
      c ≡ b'-'
      → at rest 0 ≡ b'-'
      → 0 < length rest
      → only_trivia driver (skip_line_comment (c ∷ rest) 0 - 1) rest ≡ true
      → Trivia driver c rest
  block :
      c ≡ b'/'
      → at rest 0 ≡ b'*'
      → 0 < length rest
      → only_trivia driver (skip_block_comment driver (c ∷ rest) 0 - 1) rest ≡ true
      → Trivia driver c rest

Trivia-cases :
    (driver : String) (c : ℕ) (rest : Bytes)
    → only_trivia driver 0 (c ∷ rest) ≡ true
    → Trivia driver c rest
unfolding only_trivia
Trivia-cases driver c rest h = grind (arith, space, line, block)

region_space :
    (driver : String) (query : Bytes) (k : ℕ)
    → IsSpace (at query k)
    → protected_region_end driver query k ≡ none
unfolding protected_region_end is_oracle_alternative_quote_prefix
region_space driver query k h = ground arith

region_line :
    (driver : String) (query : Bytes) (k : ℕ)
    → at query k ≡ b'-'
    → at query (k + 1) ≡ b'-'
    → k + 1 < length query
    → protected_region_end driver query k ≡ some (skip_line_comment query k)
unfolding protected_region_end is_oracle_alternative_quote_prefix
region_line driver query k h h' l = rw (h, h', protected_region_end) (ground arith)

region_block :
    (driver : String) (query : Bytes) (k : ℕ)
    → at query k ≡ b'/'
    → at query (k + 1) ≡ b'*'
    → k + 1 < length query
    → protected_region_end driver query k ≡ some (skip_block_comment driver query k)
unfolding protected_region_end is_oracle_alternative_quote_prefix
region_block driver query k h h' l = rw (h, h', protected_region_end) (ground arith)

-- The head of a text of trivia, and what is left behind it.
Trivia-at :
    (driver : String) (query : Bytes) (k : ℕ)
    → k < length query
    → only_trivia driver 0 (drop k query) ≡ true
    → Trivia driver (at query k) (drop (k + 1) query)
Trivia-at driver query k h t = Trivia-cases driver _ _ (rw (drop-lt query k 0 h) at t)

at-drop : (query : Bytes) (k : ℕ) → 0 < length (drop k query) → at query k ≡ at (drop k query) 0
at-drop query k h =
    sym (ap (λ s. at s 0) (drop-lt query k 0 (omega (arith, length-drop {0} k query))))

jumped :
    (driver : String) (query : Bytes) (k m : ℕ)
    → 0 < m
    → only_trivia driver (m - 1) (drop (k + 1) query) ≡ true
    → only_trivia driver 0 (drop (k + m) query) ≡ true
jumped driver query k m p t =
    let e : k + m ≡ k + 1 + (m - 1) = omega arith in
    rw e (rw (← drop-drop) (rw (← only_trivia-drop) t))

-- Where the query goes on with trivia, a round of any of the scans meets no `;` and no name, and
-- what follows it is trivia.
pub record TriviaStep (driver : String) (query : Bytes) (k : ℕ) : Type 0 where
  pub plain :
      protected_region_end driver query k ≡ none
      → IsSpace (at query k) × (only_trivia driver 0 (drop (k + 1) query) ≡ true)
  pub jump :
      (e : ℕ)
      → protected_region_end driver query k ≡ some e
      → only_trivia driver 0 (drop e query) ≡ true

comment_step :
    (driver : String) (query : Bytes) (k e m : ℕ)
    → protected_region_end driver query k ≡ some e
    → e ≡ k + m
    → 0 < m
    → only_trivia driver (m - 1) (drop (k + 1) query) ≡ true
    → TriviaStep driver query k
comment_step driver query k e m region at_m p t = record {
  plain = λ missing. cc;
  jump =
      λ e' region'. let there : e' ≡ k + m = ground arith in rw there (jumped driver query k m p t);
}

pub trivia_step :
    (driver : String) (query : Bytes) (k : ℕ)
    → k < length query
    → only_trivia driver 0 (drop k query) ≡ true
    → TriviaStep driver query k
trivia_step driver query k h t = elim (Trivia-at driver query k h t) [
  | space is_space rest ↦ record {
    plain = λ missing. (is_space, rest);
    jump = λ e region. absurd (cc (region_space driver query k is_space));
  }
  | line c d l rest ↦
      let d' = at-next b'-' l d in
      let region = region_line driver query k c d'.1 d'.0 in
      let moved = skip_line_comment-drop query k (omega arith) in
      comment_step driver query k _ (skip_line_comment (drop k query) 0) region moved
        (omega (arith, protected_region_end_bounds driver query k _ h region))
        (rw (drop-lt query k 0 h) rest)
  | block c d l rest ↦
      let d' = at-next b'*' l d in
      let region = region_block driver query k c d'.1 d'.0 in
      let moved = skip_block_comment-drop driver query k in
      comment_step driver query k _ (skip_block_comment driver (drop k query) 0) region moved
        (omega (arith, protected_region_end_bounds driver query k _ h region))
        (rw (drop-lt query k 0 h) rest)
]
  where
    at-next :
        (c : ℕ)
        → 0 < length (drop (k + 1) query)
        → at (drop (k + 1) query) 0 ≡ c
        → (k + 1 < length query) × (at query (k + 1) ≡ c)
    at-next c l d = (omega (arith, length-drop {0} (k + 1) query), at-drop query (k + 1) l ∙ d)
