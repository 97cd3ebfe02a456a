-- ===== src/Protocol/Response/RoundTrip.antt =====
-- A response that is accepted is sent on unchanged.
use text.Mathlib.Text.{◌==◌ as str_eq}
use onprest.Prelude.{
  ◌≡◌, ◌⊎◌, [], ◌∷◌, sym, ◌∙◌, arith, refl, subst, true, false, List, Option, none, some, String,
  inl, inr, Bool-cases, some_inj, none≢some,
}
use text.Mathlib.TextEquality.{eq_iff}
use text.Mathlib.TextPositions.{eq_refl}
use onprest.Prelude.Dict.{lookup, Distinct}
use onprest.Agent.Controller.PublicError.{ErrorValue, validate}
use onprest.Protocol.Response.{
  Json, string_value, array, object, no_content, metadata_of, shared, Response, JsonLibrary, Fields,
  is_allowed, text_of, only, if_only, some_metrics, result_response, metadata_response,
  decoded_metrics, error_metrics, decoded_error, error_response, of_kind, of_fields, within_limits,
  decode_json, if_decoded, object_in, unmarshal, other_fields, fields_of, encoded, marshal,
}

-- Two objects that are the same map; the first has no key twice.
abbrev pub Same : {R : Type 0} → Fields R → Fields R → Type 0
Same m' m = Distinct m' × ((k : String) → lookup k m' ≡ lookup k m)

-- The keys of an object that has only allowed fields.
only-allowed :
    {R : Type 0} (allowed : List String) (m : Fields R) (k : String) (v : Json R)
    → only allowed m ≡ true
    → lookup k m ≡ some v
    → is_allowed allowed k ≡ true
unfolding only lookup
only-allowed allowed [] k v h e = absurd (none≢some e)
only-allowed allowed ((j, w) ∷ m) k v h e = elim (Bool-cases (str_eq j k)) [
  | inl same ↦ subst (λ i. is_allowed allowed i ≡ true) ((eq_iff j k).0 same) (ground (arith, h))
  | inr other ↦ only-allowed allowed m k v (ground (arith, h)) (rw (other, lookup) at e)
]

only-each :
    {R : Type 0} (allowed : List String) (m : Fields R)
    → Distinct m
    → ((k : String) (v : Json R) → lookup k m ≡ some v → is_allowed allowed k ≡ true)
    → only allowed m ≡ true
unfolding only lookup
only-each allowed [] d each = refl
only-each allowed ((j, w) ∷ m) (new, d) each =
    let first : is_allowed allowed j ≡ true = each j w (rw (eq_refl j) refl) in
    rw (first, only)
      (only-each allowed m d (λ k v e. elim (Bool-cases (str_eq j k)) [
        | inl same ↦ subst (λ i. is_allowed allowed i ≡ true) ((eq_iff j k).0 same) first
        | inr other ↦ each k v (rw (other, lookup) e)
      ]))

only-Same :
    {R : Type 0} (allowed : List String) (m' m : Fields R)
    → Same m' m
    → only allowed m ≡ true
    → only allowed m' ≡ true
only-Same allowed m' m (distinct, same) h =
    only-each allowed m' distinct (λ k v e. only-allowed allowed m k v h (sym (same k) ∙ e))

module _ {R M T : Type 0} (lib : JsonLibrary R M T) where
  -- The responses of the three types, with what each has.
  pub data IsComplete : Response R M → Type 0 where
    complete_metadata :
        (id : String) (raw : R)
        → str_eq id "" ≡ false
        → lib.metadata_ok raw ≡ true
        → IsComplete (record {
          kind = "metadata";
          id = id;
          metrics = none;
          result = metadata_of raw;
          error = none;
        })
    complete_result :
        (id : String) (value : Json R) (files : R) (metrics : M)
        → str_eq id "" ≡ false
        → IsComplete (record {
          kind = "result";
          id = id;
          metrics = some metrics;
          result = shared value files;
          error = none;
        })
    complete_error :
        (id : String) (metrics : Option M) (e : ErrorValue)
        → str_eq id "" ≡ false
        → validate lib.text_library e ≡ true
        → IsComplete (record {
          kind = "error";
          id = id;
          metrics = metrics;
          result = no_content;
          error = some e;
        })

  metadata_response-IsComplete :
      (id : String) (raw : Option R) (r : Response R M)
      → str_eq id "" ≡ false
      → metadata_response lib id raw ≡ some r
      → IsComplete r
  unfolding metadata_response
  metadata_response-IsComplete id none r named e = absurd (none≢some e)
  metadata_response-IsComplete id (some raw) r named e = elim (Bool-cases (lib.metadata_ok raw)) [
    | inl ok ↦
        subst IsComplete (some_inj (rw (ok, metadata_response) at e))
          (complete_metadata id raw named ok)
    | inr bad ↦ absurd (none≢some (rw (bad, metadata_response) at e))
  ]

  result_response-IsComplete :
      (id : String) (value : Option (Json R)) (files : Option R) (metrics : Option M)
      (r : Response R M)
      → str_eq id "" ≡ false
      → result_response id value files metrics ≡ some r
      → IsComplete r
  unfolding result_response
  result_response-IsComplete id (some value) (some files) (some metrics) r named e =
      subst IsComplete (some_inj e) (complete_result id value files metrics named)
  result_response-IsComplete id none _ _ r named e = absurd (none≢some e)
  result_response-IsComplete id (some _) none _ r named e = absurd (none≢some e)
  result_response-IsComplete id (some _) (some _) none r named e = absurd (none≢some e)

  error_response-IsComplete :
      (id : String) (metrics : Option (Option M)) (error : Option ErrorValue) (r : Response R M)
      → str_eq id "" ≡ false
      → error_response lib id metrics error ≡ some r
      → IsComplete r
  unfolding error_response
  error_response-IsComplete id none _ r named h = absurd (none≢some h)
  error_response-IsComplete id (some metrics) none r named h = absurd (none≢some h)
  error_response-IsComplete id (some metrics) (some e) r named h =
      elim (Bool-cases (validate lib.text_library e)) [
        | inl ok ↦
            subst IsComplete (some_inj (rw (ok, error_response) at h))
              (complete_error id metrics e named ok)
        | inr bad ↦ absurd (none≢some (rw (bad, error_response) at h))
      ]

  if_only-IsComplete :
      (allowed : List String) (m : Fields R) (answer : Option (Response R M)) (r : Response R M)
      → (answer ≡ some r → IsComplete r)
      → if_only allowed m answer ≡ some r
      → IsComplete r
  if_only-IsComplete allowed m answer r complete e = elim (Bool-cases (only allowed m)) [
    | inl ok ↦ complete (rw ok at e)
    | inr bad ↦ absurd (none≢some (rw bad at e))
  ]

  of_kind-IsComplete :
      (kind id : String) (m : Fields R) (r : Response R M)
      → str_eq id "" ≡ false
      → of_kind lib kind id m ≡ some r
      → IsComplete r
  unfolding of_kind
  of_kind-IsComplete kind id m r named e = elim (Bool-cases (str_eq kind "metadata")) [
    | inl a ↦
        if_only-IsComplete _ m _ r (metadata_response-IsComplete id _ r named)
          (rw (a, of_kind) at e)
    | inr a' ↦ elim (Bool-cases (str_eq kind "result")) [
      | inl b ↦
          if_only-IsComplete _ m _ r (result_response-IsComplete id _ _ _ r named)
            (rw (a', b, of_kind) at e)
      | inr b' ↦ elim (Bool-cases (str_eq kind "error")) [
        | inl c ↦
            if_only-IsComplete _ m _ r (error_response-IsComplete id _ _ r named)
              (rw (a', b', c, of_kind) at e)
        | inr c' ↦ absurd (none≢some (rw (a', b', c', of_kind) at e))
      ]
    ]
  ]

  of_fields-IsComplete : (m : Fields R) (r : Response R M) → of_fields lib m ≡ some r → IsComplete r
  unfolding of_fields
  of_fields-IsComplete m r e = elim (Bool-cases (str_eq (text_of (lookup "id" m)) "")) [
    | inl unnamed ↦ absurd (none≢some (rw (unnamed, of_fields) at e))
    | inr named ↦
        of_kind-IsComplete (text_of (lookup "type" m)) (text_of (lookup "id" m)) m r named
          (rw (named, of_fields) at e)
  ]

  unmarshal-IsComplete : (b : T) (r : Response R M) → unmarshal lib b ≡ some r → IsComplete r
  unfolding unmarshal if_decoded
  unmarshal-IsComplete b r e = decoded (decode_json lib b) e
    where
      decoded : (o : Option (Fields R)) → if_decoded lib o ≡ some r → IsComplete r
      decoded none h = absurd (none≢some h)
      decoded (some m) h = of_fields-IsComplete m r h

  -- What encoding/json promises of the values that it encodes.
  pub record IsInverse : Type 0 where
    pub metrics_back : (metrics : M) → lib.metrics_of (lib.metrics_json metrics) ≡ some metrics
    pub error_back :
        (e : ErrorValue)
        → validate lib.text_library e ≡ true
        → lib.error_of (lib.error_json e) ≡ some e
    pub fields_back :
        (m : Fields R) (text : T)
        → lib.encode m ≡ some text
        → (m' : Fields R) × ((lib.parse text ≡ some (some m')) × Same m' m)

  complete-fields :
      (r : Response R M)
      → IsInverse
      → IsComplete r
      → (m : Fields R) × ((fields_of lib r ≡ some m)
          × ((m' : Fields R) → Same m' m → of_fields lib m' ≡ some r))
  unfolding fields_of other_fields of_fields of_kind lookup only is_allowed metadata_response
      result_response error_response decoded_metrics error_metrics some_metrics decoded_error
  complete-fields r back (complete_metadata id raw named ok) =
      let sent : Fields R =
        ("type", string_value "metadata")
        ∷ ("id", string_value id)
        ∷ ("metadata", object raw)
        ∷ [] in
      (
        sent,
        (
          refl,
          λ m' s.
              let fields = only-Same ("type" ∷ "id" ∷ "metadata" ∷ []) m' sent s refl in
              rw (s.1 "id", s.1 "type", s.1 "metadata", fields, named, ok) refl,
        ),
      )
  complete-fields r back (complete_result id value files metrics named) =
      let sent : Fields R =
        ("type", string_value "result")
        ∷ ("id", string_value id)
        ∷ ("data", value)
        ∷ ("files", array files)
        ∷ ("metrics", object (lib.metrics_json metrics))
        ∷ [] in
      (
        sent,
        (
          refl,
          λ m' s.
              let fields =
                only-Same ("type" ∷ "id" ∷ "data" ∷ "files" ∷ "metrics" ∷ []) m' sent s refl in
              rw
                (
                  s.1 "id",
                  s.1 "type",
                  s.1 "data",
                  s.1 "files",
                  s.1 "metrics",
                  fields,
                  named,
                  back.metrics_back metrics,
                )
                refl,
        ),
      )
  complete-fields r back (complete_error id none e named ok) =
      let sent : Fields R =
        ("type", string_value "error")
        ∷ ("id", string_value id)
        ∷ ("error", object (lib.error_json e))
        ∷ [] in
      (
        sent,
        (
          refl,
          λ m' s.
              let fields = only-Same ("type" ∷ "id" ∷ "metrics" ∷ "error" ∷ []) m' sent s refl in
              rw
                (
                  s.1 "id",
                  s.1 "type",
                  s.1 "metrics",
                  s.1 "error",
                  fields,
                  named,
                  back.error_back e ok,
                  ok,
                )
                refl,
        ),
      )
  complete-fields r back (complete_error id (some metrics) e named ok) =
      let sent : Fields R =
        ("type", string_value "error")
        ∷ ("id", string_value id)
        ∷ ("error", object (lib.error_json e))
        ∷ ("metrics", object (lib.metrics_json metrics))
        ∷ [] in
      (
        sent,
        (
          refl,
          λ m' s.
              let fields = only-Same ("type" ∷ "id" ∷ "metrics" ∷ "error" ∷ []) m' sent s refl in
              rw
                (
                  s.1 "id",
                  s.1 "type",
                  s.1 "metrics",
                  s.1 "error",
                  fields,
                  named,
                  back.metrics_back metrics,
                  back.error_back e ok,
                  ok,
                )
                refl,
        ),
      )

  -- Where JSON reads an encoded object back as the same map, and encoded metrics and valid errors
  -- as they were, a response that UnmarshalJSON accepts from some text is what it reads again from
  -- the text that MarshalJSON makes of it, unless that text exceeds the limits of DecodeJSON; for
  -- metadata, results and errors with or without metrics.
  pub unmarshal-marshal :
      (b text : T) (r : Response R M)
      → IsInverse
      → unmarshal lib b ≡ some r
      → marshal lib r ≡ some text
      → (unmarshal lib text ≡ some r) ⊎ (within_limits lib text ≡ false)
  unfolding unmarshal marshal encoded decode_json object_in if_decoded
  unmarshal-marshal b text r back accepted sent =
      let (m, (made, read)) = complete-fields r back (unmarshal-IsComplete b r accepted) in
      let (m', (parsed, same)) = back.fields_back m text (rw (made, encoded) at sent) in
      elim (Bool-cases (within_limits lib text)) [
        | inr over ↦ inr over
        | inl fits ↦ inl (rw (fits, decode_json) (rw (parsed, if_decoded) (read m' same)))
      ]
