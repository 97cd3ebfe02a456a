-- ===== src/Samples/Messages.antt =====
-- The responses of the protocol on concrete inputs.
use onprest.Prelude.{
  ℕ, ◌≡◌, ◌⊎◌, inl, inr, refl, sym, ap, Bool, Bool-cases, Option-cases, some_inj, none≢some,
  if◌then◌else◌, true, false, ◌+◌, ◌*◌, ◌^◌, [], ◌∷◌, Option, none, some,
}
use onprest.Prelude.Dict.{lookup, size, Distinct}
use onprest.Agent.Effects.{unknown}
use onprest.Agent.Controller.PublicError.{ErrorValue, message_ok, any_rune, validate, contains}
use onprest.Protocol.Response.{
  string_value, object, no_content, Response, JsonLibrary, Fields, within_structure, within_limits,
  object_in, decode_json, if_decoded, unmarshal, of_fields, fields_of, other_fields, encoded,
  of_kind, only, is_allowed, marshal, error_response, error_metrics, some_metrics, decoded_error,
}
use onprest.Protocol.Response.RoundTrip.{IsInverse, Same, unmarshal-marshal}
use onprest.Samples.Control.{plain_text}

abbrev metrics_of : ErrorValue ⊎ ℕ → Option ℕ
metrics_of (inl e) = none
metrics_of (inr n) = some n

abbrev error_of : ErrorValue ⊎ ℕ → Option ErrorValue
error_of (inl e) = some e
error_of (inr n) = none

abbrev busy_error : ErrorValue
busy_error = record {
  code = "BUSY";
  message = "execution capacity is busy";
  reason = "";
  outcome = unknown;
}

abbrev busy_fields : Fields (ErrorValue ⊎ ℕ)
busy_fields =
    ("id", string_value "7")
    ∷ ("metrics", object (inr 3))
    ∷ ("error", object (inl busy_error))
    ∷ ("type", string_value "error")
    ∷ []

-- A Go map has no key twice.
abbrev no_key_twice : Fields (ErrorValue ⊎ ℕ) → Bool
no_key_twice [] = true
no_key_twice ((k, v) ∷ m) = elim (lookup k m) [ none ↦ no_key_twice m | some w ↦ false ]

false≢true : false ≡ true → ⊥
false≢true e = cc

no_key_twice-Distinct : (m : Fields (ErrorValue ⊎ ℕ)) → no_key_twice m ≡ true → Distinct m
no_key_twice-Distinct [] h = tt
no_key_twice-Distinct ((k, v) ∷ m) h = elim (Option-cases (lookup k m)) [
  | inl new ↦ (new, no_key_twice-Distinct m (rw (new, no_key_twice) at h))
  | inr (w, old) ↦ absurd (false≢true (rw (old, no_key_twice) at h))
]

abbrev write_map : Fields (ErrorValue ⊎ ℕ) → Option (Fields (ErrorValue ⊎ ℕ))
write_map m = if no_key_twice m then some m else none

write_map-Same :
    (m text : Fields (ErrorValue ⊎ ℕ))
    → write_map m ≡ some text
    → (m' : Fields (ErrorValue ⊎ ℕ)) × ((some (some text) ≡ some (some m')) × Same m' m)
write_map-Same m text e = elim (Bool-cases (no_key_twice m)) [
  | inl ok ↦
      let is : m ≡ text = some_inj (rw ok at e) in
      (m, (ap (λ t. some (some t)) (sym is), (no_key_twice-Distinct m ok, λ k. refl)))
  | inr bad ↦ absurd (none≢some (rw bad at e))
]

-- The texts are the fields themselves, of two bytes each.
abbrev numbers : JsonLibrary (ErrorValue ⊎ ℕ) ℕ (Fields (ErrorValue ⊎ ℕ))
numbers = record {
  size_of = λ m. 2 * size m;
  parse = λ m. some (some m);
  depth = λ m. 2;
  items = size;
  encode = write_map;
  metrics_of = metrics_of;
  metrics_json = inr;
  error_of = error_of;
  error_json = inl;
  metadata_ok = λ raw. true;
  null = inr 0;
  text_library = plain_text;
}

numbers-IsInverse : IsInverse numbers
numbers-IsInverse = record {
  metrics_back = λ n. refl;
  error_back = λ e ok. refl;
  fields_back = write_map-Same;
}

abbrev busy_response : Response (ErrorValue ⊎ ℕ) ℕ
busy_response = record {
  kind = "error";
  id = "7";
  metrics = some 3;
  result = no_content;
  error = some busy_error;
}

busy_is_accepted : unmarshal numbers busy_fields ≡ some busy_response
unfolding unmarshal decode_json within_limits within_structure object_in if_decoded size of_fields
    of_kind only is_allowed lookup error_response error_metrics some_metrics decoded_error validate
    message_ok any_rune contains
busy_is_accepted = refl

abbrev sent_fields : Fields (ErrorValue ⊎ ℕ)
sent_fields =
    ("type", string_value "error")
    ∷ ("id", string_value "7")
    ∷ ("error", object (inl busy_error))
    ∷ ("metrics", object (inr 3))
    ∷ []

busy_is_sent : marshal numbers busy_response ≡ some sent_fields
unfolding marshal fields_of other_fields encoded lookup
busy_is_sent = refl

unmarshal-marshal_example :
    (unmarshal numbers sent_fields ≡ some busy_response)
    ⊎ (within_limits numbers sent_fields ≡ false)
unmarshal-marshal_example =
    unmarshal-marshal numbers busy_fields sent_fields busy_response numbers-IsInverse
      busy_is_accepted busy_is_sent

-- What is larger than the limit is refused.
large_is_refused : unmarshal (record numbers { size_of = λ m. 16 * 2 ^ 20 + 1 }) busy_fields ≡ none
unfolding unmarshal decode_json within_limits within_structure object_in if_decoded
large_is_refused = refl

-- A field that its type does not have is refused.
extra_field_is_refused : unmarshal numbers (("data", object (inr 1)) ∷ busy_fields) ≡ none
unfolding unmarshal decode_json within_limits within_structure object_in if_decoded size of_fields
    of_kind only is_allowed lookup
extra_field_is_refused = refl
