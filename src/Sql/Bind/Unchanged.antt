-- ===== src/Sql/Bind/Unchanged.antt =====
-- A text without parameters goes to the database as it is.
use onprest.Prelude.{
  ℕ, ◌+◌, ◌-◌, ◌≤◌, ◌<◌, ◌≡◌, ◌≢◌, refl, sym, ap, ◌∙◌, inl, inr, List, [], ◌∷◌, ◌++◌, map, Option,
  some, Option-cases, Bool-cases, ◌==◌, String, Bytes, arith, length, take, take-slice, take_all,
}
use onprest.Prelude.Cursor.{Keeps, scan_inv}
use onprest.Sql.Classify.{parameters}
use onprest.Sql.Bind.{
  BindResult, ok, err, sql_is_empty, missing_sql_param, bind_parameter, build_step, build_sql,
}
use onprest.Sql.Bind.Rounds.{Named, rounds}
use onprest.Sql.Bind.Agree.{no_bytes, Explains, build_sql-parameters, build_sql_total}

append_ne_nil : {V : Type 0} (xs : List V) (v : V) → xs ++ v ∷ [] ≢ []
append_ne_nil [] v e = cc
append_ne_nil (x ∷ xs) v e = cc

middle_ne_nil : {V : Type 0} (xs : List V) (v : V) (ys : List V) → (xs ++ v ∷ []) ++ ys ≢ []
middle_ne_nil [] v ys e = cc
middle_ne_nil (x ∷ xs) v ys e = cc

no_values : {V : Type 0} (xs : List V) → map some xs ≡ [] → xs ≡ []
no_values [] e = refl
no_values (x ∷ xs) e = absurd (cons_ne_nil e)
  where
    cons_ne_nil : some x ∷ map some xs ≢ []
    cons_ne_nil e = cc

module _ {V : Type 0} (driver : String) (query : Bytes) (params : Bytes → Option V) where
  -- As long as nothing is bound the output is the query up to the cursor.
  abbrev CopiedTo : ℕ → BindResult V → Type 0
  CopiedTo p (ok b) = b.args ≡ [] → (b.out ≡ take p query) × (p ≤ length query)
  CopiedTo p (err e) = Unit {0}

  abbrev Copied : BindResult V → Type 0
  Copied (ok b) = b.args ≡ [] → b.out ≡ query
  Copied (err e) = Unit {0}

  Keeps-Copied :
      (p : ℕ) (s : BindResult V)
      → p < length query
      → CopiedTo p s
      → Keeps CopiedTo Copied (build_step driver query params p s)
  unfolding build_step bind_parameter
  Keeps-Copied p (err e) h c = tt
  Keeps-Copied p (ok b) h c = elim (rounds driver query params p h) [
    | inl round ↦ rw (round.copies b) (λ e. (
      rw (round.slice, (c e).0)
          (take-slice p (round.j - p) query ∙ ap (λ n. take n query) (omega arith)),
      round.forward.1,
    ))
    | inr round ↦ rw (round.binds b) (bound round)
  ]
    where
      bound :
          (round : Named driver query params p)
          → Keeps CopiedTo Copied (bind_parameter driver params p round.name round.n b)
      bound round = elim (Option-cases (params round.name)) [
        | inl missing ↦ rw (missing, bind_parameter) tt
        | inr (v, e) ↦
            rw (e, bind_parameter) (λ none_bound. absurd (append_ne_nil b.args v none_bound))
      ]

  Copied-end : (p : ℕ) (s : BindResult V) → length query ≤ p → CopiedTo p s → Copied s
  Copied-end p (ok b) h c = λ e. (c e).0 ∙ take_all p query h
  Copied-end p (err x) h c = tt

  Copied-all : (r : BindResult V) → build_sql driver query params ≡ some r → query ≢ [] → Copied r
  unfolding build_sql
  Copied-all r e filled = elim (Bool-cases (length query == 0)) [
    | inl empty ↦ absurd (filled (no_bytes query empty))
    | inr some_bytes ↦
        scan_inv CopiedTo Copied _ _ Keeps-Copied Copied-end (length query + 1) 0
          (ok (record { out = []; args = []; count = 0 })) (λ e. (refl, omega arith))
          (rw (some_bytes, build_sql) at e)
  ]

  only-Copied :
      (r : BindResult V)
      → query ≢ []
      → Copied r
      → Explains driver query params r []
      → r ≡ ok (record { out = query; args = []; count = 0 })
  only-Copied (ok b) filled c x = ground (arith, no_values b.args x.0, c (no_values b.args x.0))
  only-Copied (err sql_is_empty) filled c x = absurd (filled x)
  only-Copied (err (missing_sql_param name)) filled c (missing, before, after, e) =
      absurd (middle_ne_nil before name after (sym e))

  -- A nonempty query in which Parameters finds no name comes out of buildSQL as it went in, with no
  -- arguments.
  pub build_sql_unchanged :
      query ≢ []
      → parameters driver query ≡ some []
      → build_sql driver query params ≡ some (ok (record { out = query; args = []; count = 0 }))
  build_sql_unchanged filled nameless =
      let (r, e) = build_sql_total driver query params in
      e
      ∙ ap some (
          only-Copied r filled (Copied-all r e filled)
            (build_sql-parameters driver query params r [] e nameless))
