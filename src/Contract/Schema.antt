-- ===== src/Contract/Schema.antt =====
-- ResolvePointer of internal/contract/binding.go and schemaHasFile of internal/agent/input_commit.go, on
-- the parts of a schema that they read.
use text.Mathlib.Text.{◌==◌ as str_eq}
use onprest.Prelude.{
  ℕ, Bool, true, false, not, ◌&&◌, ◌||◌, List, [], ◌∷◌, Option, none, some, String, Bytes, bytes_eq,
  ltb, ◌==◌, if◌then◌else◌,
}
use onprest.Contract.Pointer.{
  Outcome, done, failed, invalid_pointer, invalid_escape, invalid_index, undeclared, no_item_schema,
  through_scalar, unescape_pointer, all_segments, index_form,
}

-- The scalar parts of a schema; `min_items` is `none` where the constraint is absent.
pub record Form : Type 0 where
  pub types : List String
  pub required : List Bytes
  pub default_set : Bool
  pub min_items : Option ℕ
  pub file : Bool

mutual
  pub data Schema : Type 0 where
    schema : Form → Properties → Items → Schema

  pub data Properties : Type 0 where
    no_properties : Properties
    property : Bytes → Schema → Properties → Properties

  pub data Items : Type 0 where
    no_items : Items
    items_of : Schema → Items

pub has_type : String → List String → Bool
has_type t [] = false
has_type t (x ∷ xs) = str_eq x t || has_type t xs

pub is_required : Bytes → List Bytes → Bool
is_required key [] = false
is_required key (k ∷ ks) = bytes_eq k key || is_required key ks

pub property_at : Bytes → Properties → Option Schema
property_at key no_properties = none
property_at key (property k s ps) =
    let rest = property_at key ps in if bytes_eq k key then some s else rest

pub default_of : Schema → Bool
default_of (schema f ps is) = f.default_set

abbrev pub or_zero : Option ℕ → ℕ
or_zero none = 0
or_zero (some n) = n

-- A schema position, with whether it exists in every value.
abbrev pub Position : Type 0
Position = Schema × Bool

module _ (parse_int : Bytes → Option ℕ) where
  unfoldable pub into_items : Bytes → Form → Items → Bool → Outcome Position
  into_items token f is guaranteed =
      if not (index_form token) then failed invalid_index else elim (parse_int token) [
        | none ↦ failed no_item_schema
        | some i ↦ elim is [
          | no_items ↦ failed no_item_schema
          | items_of s ↦ done (s, guaranteed && ltb i (or_zero f.min_items))
        ]
      ]

  unfoldable pub into_property : Bytes → Form → Properties → Bool → Outcome Position
  into_property token f ps guaranteed = elim (property_at token ps) [
    | none ↦ failed undeclared
    | some s ↦ done (s, guaranteed && (is_required token f.required || default_of s))
  ]

  -- One turn of the loop of `ResolvePointer`, with the unescaped token.
  unfoldable pub into : Bytes → Schema → Bool → Outcome Position
  into token (schema f ps is) guaranteed =
      let still = guaranteed && not (has_type "null" f.types) in
      if has_type "object" f.types
      then into_property token f ps still
      else if has_type "array" f.types
      then into_items token f is still
      else failed through_scalar

  unfoldable pub resolve : List Bytes → Position → Outcome Position
  resolve [] (s, guaranteed) = done (s, guaranteed)
  resolve (raw ∷ raws) (s, guaranteed) = elim (unescape_pointer raw) [
    | none ↦ failed invalid_escape
    | some token ↦ elim (into token s guaranteed) [ failed e ↦ failed e | done p ↦ resolve raws p ]
  ]

  -- `ResolvePointer`.
  unfoldable pub resolve_pointer : Schema → Bytes → Outcome Position
  resolve_pointer s [] = done (s, true)
  resolve_pointer s (b ∷ pointer) =
      if not (b == b'/') then failed invalid_pointer else resolve (all_segments pointer) (s, true)

-- `schemaHasFile`.
mutual
  pub schema_has_file : Schema → Bool
  schema_has_file (schema f ps is) = f.file || (items_have_file is || properties_have_file ps)

  pub items_have_file : Items → Bool
  items_have_file no_items = false
  items_have_file (items_of s) = schema_has_file s

  pub properties_have_file : Properties → Bool
  properties_have_file no_properties = false
  properties_have_file (property k s ps) = schema_has_file s || properties_have_file ps
