-- ===== src/Protocol/Response.antt =====
-- The responses of internal/protocol/protocol.go: MarshalJSON and UnmarshalJSON, with the limits of
-- DecodeJSON of internal/contract/canonical.go. An object's fields are a map, and what the fields hold
-- is of the library's type `R`, seen as text, an array, an object or anything else.
pub mod RoundTrip
use text.Mathlib.Text.{◌==◌ as str_eq}
use onprest.Prelude.{
  ℕ, ◌*◌, ◌^◌, ltb, Bool, true, false, not, ◌&&◌, ◌||◌, List, [], ◌∷◌, Option, none, some, String,
  if◌then◌else◌,
}
use onprest.Prelude.Dict.{Dict, lookup}
use onprest.Agent.Controller.PublicError.{ErrorValue, TextLibrary, validate}

pub data Json (R : Type 0) : Type 0 where
  string_value : String → Json R
  array object scalar : R → Json R

-- `Result`: what `json.RawMessage` holds for metadata, or the data and the files of a result.
pub data Content (R : Type 0) : Type 0 where
  no_content : Content R
  metadata_of : R → Content R
  shared : Json R → R → Content R

pub record Response (R M : Type 0) : Type 0 where
  pub kind : String
  pub id : String
  pub metrics : Option M
  pub result : Content R
  pub error : Option ErrorValue

-- encoding/json on the parts of a response: `decodeFixedFields` of metrics, of an error and of metadata, the
-- encodings of the first two, and `null`. `parse` reads one value from a text, without a duplicate key:
-- `none` is an error, and `some none` a value that is no object; `depth` and `items` are the nesting of
-- the object and the number of its values and keys, which DecodeJSON counts while it reads. `encode` is
-- `json.Marshal`, of texts `T` with `size_of` bytes.
pub record JsonLibrary (R M T : Type 0) : Type 0 where
  pub size_of : T → ℕ
  pub parse : T → Option (Option (Dict (Json R)))
  pub depth : Dict (Json R) → ℕ
  pub items : Dict (Json R) → ℕ
  pub encode : Dict (Json R) → Option T
  pub metrics_of : R → Option M
  pub metrics_json : M → R
  pub error_of : R → Option ErrorValue
  pub error_json : ErrorValue → R
  pub metadata_ok : R → Bool
  pub null : R
  pub text_library : TextLibrary

abbrev pub Fields : Type 0 → Type 0
Fields R = Dict (Json R)

unfoldable pub is_allowed : List String → String → Bool
is_allowed [] k = false
is_allowed (a ∷ allowed) k = str_eq a k || is_allowed allowed k

module _ {R : Type 0} where
  abbrev pub text_of : Option (Json R) → String
  text_of (some (string_value s)) = s
  text_of _ = ""

  abbrev pub object_of : Option (Json R) → Option R
  object_of (some (object r)) = some r
  object_of _ = none

  abbrev pub array_of : Option (Json R) → Option R
  array_of (some (array r)) = some r
  array_of _ = none

  unfoldable pub only : List String → Fields R → Bool
  only allowed [] = true
  only allowed ((k, v) ∷ m) = is_allowed allowed k && only allowed m

abbrev pub if_only :
    {R M : Type 0} → List String → Fields R → Option (Response R M) → Option (Response R M)
if_only allowed m r = if only allowed m then r else none

unfoldable pub some_metrics : {M : Type 0} → Option M → Option (Option M)
some_metrics none = none
some_metrics (some metrics) = some (some metrics)

-- The case of a result, of its data, its files and its decoded metrics.
unfoldable pub result_response :
    {R M : Type 0} → String → Option (Json R) → Option R → Option M → Option (Response R M)
result_response id (some value) (some files) (some metrics) = some (record {
  kind = "result";
  id = id;
  metrics = some metrics;
  result = shared value files;
  error = none;
})
result_response id _ _ _ = none

module _ {R M T : Type 0} (lib : JsonLibrary R M T) where
  -- The case of metadata.
  unfoldable pub metadata_response : String → Option R → Option (Response R M)
  metadata_response id none = none
  metadata_response id (some raw) =
      if lib.metadata_ok raw
      then some (record {
        kind = "metadata";
        id = id;
        metrics = none;
        result = metadata_of raw;
        error = none;
      })
      else none

  unfoldable pub decoded_metrics : Option R → Option M
  decoded_metrics none = none
  decoded_metrics (some raw) = lib.metrics_of raw

  -- The metrics of an error: `some none` where there are none.
  unfoldable pub error_metrics : Option (Json R) → Option (Option M)
  error_metrics none = some none
  error_metrics (some (object raw)) = some_metrics (lib.metrics_of raw)
  error_metrics (some _) = none

  unfoldable pub decoded_error : Option R → Option ErrorValue
  decoded_error none = none
  decoded_error (some raw) = lib.error_of raw

  unfoldable pub error_response :
      String → Option (Option M) → Option ErrorValue → Option (Response R M)
  error_response id (some metrics) (some e) =
      if validate lib.text_library e
      then some (record {
        kind = "error";
        id = id;
        metrics = metrics;
        result = no_content;
        error = some e;
      })
      else none
  error_response id _ _ = none

  -- The cases of `UnmarshalJSON`, by the type.
  unfoldable pub of_kind : String → String → Fields R → Option (Response R M)
  of_kind kind id m =
      if str_eq kind "metadata"
      then if_only ("type" ∷ "id" ∷ "metadata" ∷ []) m
          (metadata_response id (object_of (lookup "metadata" m)))
      else if str_eq kind "result"
      then if_only ("type" ∷ "id" ∷ "data" ∷ "files" ∷ "metrics" ∷ []) m (
          result_response id (lookup "data" m) (array_of (lookup "files" m))
            (decoded_metrics (object_of (lookup "metrics" m))))
      else if str_eq kind "error"
      then if_only ("type" ∷ "id" ∷ "metrics" ∷ "error" ∷ []) m (
          error_response id (error_metrics (lookup "metrics" m))
            (decoded_error (object_of (lookup "error" m))))
      else none

  -- `UnmarshalJSON`, of the object that the text decodes to; `none` is an error.
  unfoldable pub of_fields : Fields R → Option (Response R M)
  of_fields m =
      if str_eq (text_of (lookup "id" m)) ""
      then none
      else of_kind (text_of (lookup "type" m)) (text_of (lookup "id" m)) m

  -- The limits of `DecodeJSON` that a response has: 16 MiB, 64 levels, 100000 values and keys.
  unfoldable pub within_structure : Option (Option (Fields R)) → Bool
  within_structure (some (some m)) = not (ltb 64 (lib.depth m)) && not (ltb 100000 (lib.items m))
  within_structure _ = true

  unfoldable pub within_limits : T → Bool
  within_limits b = not (ltb (16 * 2 ^ 20) (lib.size_of b)) && within_structure (lib.parse b)

  -- `DecodeJSON`, of an object; a value that is none is an error of `UnmarshalJSON`.
  unfoldable pub object_in : Option (Option (Fields R)) → Option (Fields R)
  object_in (some (some m)) = some m
  object_in _ = none

  unfoldable pub decode_json : T → Option (Fields R)
  decode_json b = if within_limits b then object_in (lib.parse b) else none

  -- `UnmarshalJSON`.
  unfoldable pub if_decoded : Option (Fields R) → Option (Response R M)
  if_decoded none = none
  if_decoded (some m) = of_fields m

  unfoldable pub unmarshal : T → Option (Response R M)
  unmarshal b = if_decoded (decode_json b)

  abbrev pub metrics_field : Option M → Json R
  metrics_field none = scalar lib.null
  metrics_field (some metrics) = object (lib.metrics_json metrics)

  abbrev pub error_metrics_fields : Option M → Fields R
  error_metrics_fields none = []
  error_metrics_fields (some metrics) = ("metrics", object (lib.metrics_json metrics)) ∷ []

  abbrev pub metadata_field : Content R → Json R
  metadata_field (metadata_of raw) = object raw
  metadata_field _ = scalar lib.null

  unfoldable pub other_fields : Response R M → Option ErrorValue → Content R → Option (Fields R)
  other_fields r (some e) c = some (
      ("type", string_value "error")
      ∷ ("id", string_value r.id)
      ∷ ("error", object (lib.error_json e))
      ∷ error_metrics_fields r.metrics)
  other_fields r none (shared value files) = some (
      ("type", string_value r.kind)
      ∷ ("id", string_value r.id)
      ∷ ("data", value)
      ∷ ("files", array files)
      ∷ ("metrics", metrics_field r.metrics)
      ∷ [])
  other_fields r none _ = none

  -- The fields that `MarshalJSON` writes; `none` is an error. A response with metadata and another type
  -- is not made.
  unfoldable pub fields_of : Response R M → Option (Fields R)
  fields_of r =
      if str_eq r.kind "metadata"
      then some (
          ("type", string_value r.kind)
          ∷ ("id", string_value r.id)
          ∷ ("metadata", metadata_field r.result)
          ∷ [])
      else other_fields r r.error r.result

  unfoldable pub encoded : Option (Fields R) → Option T
  encoded none = none
  encoded (some m) = lib.encode m

  -- `MarshalJSON`.
  unfoldable pub marshal : Response R M → Option T
  marshal r = encoded (fields_of r)
