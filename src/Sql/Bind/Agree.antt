-- ===== src/Sql/Bind/Agree.antt =====
-- `buildSQL` against `Parameters`: two loops over one text, and one binding.
use onprest.Prelude.{
  none≢some, some_inj, ℕ, zero, suc, ◌+◌, ◌≤◌, ◌<◌, ◌≡◌, refl, sym, ap, subst, true, ◌∙◌, inl, inr,
  List, [], ◌∷◌, ◌++◌, map, append_assoc, append-nil, Option, none, some, Option-cases, Bool-cases,
  ◌==◌, String, Bytes, arith, length, length-append, map-append,
}
use onprest.Prelude.Cursor.{goto, Keeps, Agrees, scan, scan_inv, scan_sim, scan_total, scan-goto}
use onprest.Sql.Regions.{protected_region_end}
use onprest.Sql.Regions.Bounds.{protected_region_end_bounds}
use onprest.Sql.Classify.{parameters_step, parameters}
use onprest.Sql.Bind.{
  Bound, BindResult, ok, err, sql_is_empty, missing_sql_param, placeholder, bind_parameter,
  build_step, build_sql,
}
use onprest.Sql.Bind.Rounds.{Named, rounds}

pub no_bytes : (s : Bytes) → (length s == 0) ≡ true → s ≡ []
no_bytes [] h = refl
no_bytes (c ∷ s) h = ground arith

module _ {V : Type 0} (driver : String) (query : Bytes) (params : Bytes → Option V) where
  build_step-lt :
      (p : ℕ) (s : BindResult V) (j : ℕ) (t : BindResult V)
      → p < length query
      → build_step driver query params p s ≡ goto j t
      → p < j
  unfolding build_step bind_parameter
  build_step-lt p (err e) j t h w = ground arith
  build_step-lt p (ok b) j t h w = elim (Option-cases (protected_region_end driver query p)) [
    | inl plain ↦ ground arith
    | inr (n, found) ↦ ground (arith, protected_region_end_bounds driver query p n)
  ]

  -- buildSQL returns a result on every query and every set of parameters.
  pub build_sql_total : (r : BindResult V) × (build_sql driver query params ≡ some r)
  unfolding build_sql
  build_sql_total = elim (Bool-cases (length query == 0)) [
    | inl empty ↦ (err sql_is_empty, rw (empty, build_sql))
    | inr filled ↦
        let (r, e) =
          scan_total (length query) (build_step driver query params) build_step-lt
            (length query + 1) 0 (ok (record { out = []; args = []; count = 0 })) (omega arith) in
        (r, rw (filled, build_sql) e)
  ]

  abbrev Comes : ℕ → List Bytes → List Bytes → Type 0
  Comes p names v =
      (f : ℕ) × (scan f (length query) (parameters_step driver query) p names ≡ some v)

  -- `Parameters` only ever appends.
  parameters_grow :
      (p : ℕ) (names v : List Bytes) → Comes p names v → (more : List Bytes) × (v ≡ names ++ more)
  parameters_grow p names v (f, e) =
      scan_inv (λ _ s. (more : List Bytes) × (s ≡ names ++ more))
        (λ s. (more : List Bytes) × (s ≡ names ++ more)) _ _ grows (λ i s past h. h) f p names
        ([], sym (append-nil names)) e
    where
      grows :
          (i : ℕ) (s : List Bytes)
          → i < length query
          → ((more : List Bytes) × (s ≡ names ++ more))
          → Keeps
              (λ _ s. (more : List Bytes) × (s ≡ names ++ more))
              (λ s. (more : List Bytes) × (s ≡ names ++ more))
              (parameters_step driver query i s)
      grows i s inside (more, e) = elim (rounds driver query params i inside) [
        | inl round ↦ rw round.moves (more, e)
        | inr round ↦
            rw round.moves (
              more ++ round.name ∷ [],
              ap (λ x. x ++ round.name ∷ []) e ∙ append_assoc names more _,
            )
      ]

  found_later :
      (p j : ℕ) (names v : List Bytes) (name : Bytes)
      → p < length query
      → parameters_step driver query p names ≡ goto j (names ++ name ∷ [])
      → Comes p names v
      → (more : List Bytes) × (v ≡ (names ++ name ∷ []) ++ more)
  unfolding scan
  found_later p j names v name h e (zero, w) = absurd (none≢some w)
  found_later p j names v name h e (suc f, w) =
      parameters_grow j (names ++ name ∷ []) v (f, sym (scan-goto f _ _ p names h e) ∙ w)

  -- The arguments are the values of the names, in order.
  abbrev Binds : Bound V → List Bytes → Type 0
  Binds b names = (map some b.args ≡ map params names) × (b.count ≡ length b.args)

  abbrev BindsTo : BindResult V → List Bytes → Type 0
  BindsTo (ok b) names = Binds b names
  BindsTo (err _) names = ⊥

  -- What a result of `buildSQL` says of the names that `Parameters` lists.
  abbrev pub Explains : BindResult V → List Bytes → Type 0
  Explains (ok b) names = (map some b.args ≡ map params names) × (b.count ≡ length b.args)
  Explains (err sql_is_empty) names = query ≡ []
  Explains (err (missing_sql_param name)) names =
      (params name ≡ none)
      × (before : List Bytes) × (after : List Bytes) × (names ≡ (before ++ name ∷ []) ++ after)

  Binds-snoc :
      (b : Bound V) (names : List Bytes) (name out : Bytes) (v : V)
      → Binds b names
      → params name ≡ some v
      → Binds
          (record b { args = b.args ++ v ∷ []; count = b.count + 1; out = out })
          (names ++ name ∷ [])
  Binds-snoc b names name out v (same, counted) e = (
    simp (map-append, same, e),
    omega (arith, length-append {0} b.args (v ∷ []), ap length (append-nil b.args)),
  )

  steps_agree :
      (p : ℕ) (s : BindResult V) (names : List Bytes)
      → p < length query
      → BindsTo s names
      → Agrees
          (λ _. BindsTo)
          Explains
          (Comes p names)
          (build_step driver query params p s)
          (parameters_step driver query p names)
  unfolding bind_parameter
  steps_agree p (err e) names h b = absurd b
  steps_agree p (ok b) names h binds = elim (rounds driver query params p h) [
    | inl round ↦ rw (round.moves names, round.copies b) (refl, binds)
    | inr round ↦ rw (round.binds b) (bound round)
  ]
    where
      bound :
          (round : Named driver query params p)
          → Agrees
              (λ _. BindsTo)
              Explains
              (Comes p names)
              (bind_parameter driver params p round.name round.n b)
              (parameters_step driver query p names)
      bound round = elim (Option-cases (params round.name)) [
        | inl missing ↦
            rw (missing, bind_parameter)
              λ v comes.
                let (more, later) =
                  found_later p _ names v round.name h (round.moves names) comes in
                (missing, names, more, later)
        | inr (v, e) ↦
            rw (e, bind_parameter, round.moves names)
              (
                omega arith,
                Binds-snoc b names round.name (b.out ++ placeholder driver (b.count + 1)) v binds e,
              )
      ]

  agree_at_end :
      (p : ℕ) (s : BindResult V) (names : List Bytes)
      → length query ≤ p
      → BindsTo s names
      → Explains s names
  agree_at_end p (ok b) names h binds = binds
  agree_at_end p (err e) names h binds = absurd binds

  -- The result of buildSQL agrees with the names that Parameters lists: success gives the values of
  -- these names in order and their count, the missing-parameter error names one of them that has no
  -- value, and the other error means an empty query.
  pub build_sql-parameters :
      (r : BindResult V) (names : List Bytes)
      → build_sql driver query params ≡ some r
      → parameters driver query ≡ some names
      → Explains r names
  unfolding build_sql parameters
  build_sql-parameters r names e d = elim (Bool-cases (length query == 0)) [
    | inl empty ↦
        subst (λ x. Explains x names) (some_inj (rw (empty, build_sql) at e)) (no_bytes query empty)
    | inr filled ↦
        scan_sim (λ _. BindsTo) Explains _ _ _ steps_agree agree_at_end (length query + 1) 0
          (ok (record { out = []; args = []; count = 0 })) [] (refl, refl)
          (rw (filled, build_sql) at e) d
  ]
