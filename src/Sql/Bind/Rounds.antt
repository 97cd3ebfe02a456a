-- ===== src/Sql/Bind/Rounds.antt =====
-- What one round does, in `Parameters` and in `buildSQL` alike.
use onprest.Prelude.{
  ℕ, ◌+◌, ◌-◌, ◌≤◌, ◌<◌, ◌≡◌, refl, ◌⊎◌, inl, inr, true, ◌&&◌, [], ◌∷◌, ◌++◌, List, Option,
  Option-cases, Bool-cases, ◌==◌, ltb, String, Bytes, codes, arith, length, take, drop, drop-lt,
}
use onprest.Prelude.Cursor.{goto}
use onprest.Sql.Regions.{at, protected_region_end}
use onprest.Sql.Regions.Bounds.{protected_region_end_bounds}
use onprest.Sql.Classify.{parameter_name, parameters_step}
use onprest.Sql.Bind.{Bound, ok, bind_parameter, build_step}

module _ {V : Type 0} (driver : String) (query : Bytes) (params : Bytes → Option V) where
  -- No name: both loops go to `j`, and the text between is copied.
  pub record Plain (p : ℕ) : Type 0 where
    pub j : ℕ
    pub text : Bytes
    pub forward : (p < j) × (j ≤ length query)
    pub slice : text ≡ take (j - p) (drop p query)
    pub moves : (names : List Bytes) → parameters_step driver query p names ≡ goto j names
    pub copies :
        (b : Bound V)
        → build_step driver query params p (ok b) ≡ goto j (ok (record b { out = b.out ++ text }))

  -- A name of `n` bytes behind a colon.
  pub record Named (p : ℕ) : Type 0 where
    pub name : Bytes
    pub n : ℕ
    pub moves :
        (names : List Bytes)
        → parameters_step driver query p names ≡ goto (p + (n + 1)) (names ++ name ∷ [])
    pub binds :
        (b : Bound V)
        → build_step driver query params p (ok b) ≡ bind_parameter driver params p name n b

  one_byte : (p : ℕ) → p < length query → at query p ∷ [] ≡ take (p + 1 - p) (drop p query)
  one_byte p h = let e : p + 1 - p ≡ 1 = omega arith in rw e (rw (drop-lt query p 0 h))

  two_colons :
      (p : ℕ)
      → (at query p == b':') ≡ true
      → (ltb (p + 1) (length query) && at query (p + 1) == b':') ≡ true
      → codes "::" ≡ take (p + 2 - p) (drop p query)
  two_colons p c d =
      let e : p + 2 - p ≡ 2 = omega arith in
      let here : p < length query = ground arith in
      let there : p + 1 < length query = ground arith in
      rw e (rw (drop-lt query p 0 here) (rw (drop-lt query (p + 1) 0 there) (ground arith)))

  pub rounds : (p : ℕ) → p < length query → Plain p ⊎ Named p
  unfolding parameters_step build_step
  rounds p h = elim (Option-cases (protected_region_end driver query p)) [
    | inr (e, found) ↦ inl (record {
      j = e;
      text = take (e - p) (drop p query);
      forward = protected_region_end_bounds driver query p e h found;
      slice = refl;
      moves = λ names. rw (found, parameters_step);
      copies = λ b. rw (found, build_step);
    })
    | inl missing ↦ elim (Bool-cases (at query p == b':')) [
      | inr other ↦ inl (record {
        j = p + 1;
        text = at query p ∷ [];
        forward = (omega arith, omega arith);
        slice = one_byte p h;
        moves = λ names. rw (missing, other, parameters_step);
        copies = λ b. rw (missing, other, build_step);
      })
      | inl colon ↦ elim (Bool-cases (ltb (p + 1) (length query) && at query (p + 1) == b':')) [
        | inl double ↦ inl (record {
          j = p + 2;
          text = codes "::";
          forward = (omega arith, ground arith);
          slice = two_colons p colon double;
          moves = λ names. rw (missing, colon, double, parameters_step);
          copies = λ b. rw (missing, colon, double, build_step);
        })
        | inr alone ↦ elim (Bool-cases (ltb 0 (parameter_name (drop (p + 1) query)).1)) [
          | inl named ↦ inr (record {
            name = (parameter_name (drop (p + 1) query)).0;
            n = (parameter_name (drop (p + 1) query)).1;
            moves = λ names. rw (missing, colon, alone, named, parameters_step);
            binds = λ b. rw (missing, colon, alone, named, build_step);
          })
          | inr nameless ↦ inl (record {
            j = p + 1;
            text = at query p ∷ [];
            forward = (omega arith, omega arith);
            slice = one_byte p h;
            moves = λ names. rw (missing, colon, alone, nameless, parameters_step);
            copies = λ b. rw (missing, colon, alone, nameless, build_step);
          })
        ]
      ]
    ]
  ]
