-- ===== src/Contract/Pointer/Replace.antt =====
-- replaceInputFiles of internal/agent/input_commit.go. The source writes into the parameters that it
-- was given; the model returns them, and on an error the caller drops them.
use onprest.Prelude.{
  ℕ, zero, suc, ◌+◌, ◌/◌, ◌%◌, Bool, false, not, ◌&&◌, ◌||◌, ltb, ◌++◌, List, [], ◌∷◌, Option, none,
  some, String, length, Bytes, bytes_eq, ◌==◌, if◌then◌else◌,
}
use text.Mathlib.Text.{◌==◌ as str_eq}
use onprest.Prelude.Dict.{Dict, lookup, size}
use onprest.Contract.Pointer.{
  Json, null, leaf, object, array, Members, no_members, member, Elements, no_elements, element,
  member_at, element_at, all_segments,
}

pub data InputError : Type 0 where
  invalid_binding invalid_pointer missing_placeholder invalid_placeholder invalid_index invalid_path
        unused_input :
      InputError

pub data Placed (A : Type 0) : Type 0 where
  placed : A → Placed A
  refused : InputError → Placed A

pub record FileBinding : Type 0 where
  pub pointer : Bytes
  pub file_id : String

pub record FileValue (L : Type 0) : Type 0 where
  pub pointer : Bytes
  pub file : L

unfoldable pub seen_before : String → List String → Bool
seen_before id [] = false
seen_before id (k ∷ ids) = str_eq k id || seen_before id ids

-- `string(raw[p])`: the UTF-8 encoding of the code point that has the byte's number.
unfoldable pub byte_string : ℕ → Bytes
byte_string b = if ltb b 128 then b ∷ [] else (192 + b / 64) ∷ (128 + b % 64) ∷ []

-- The loop over the bytes of a token. Where a byte is above 127 the token is not the one that
-- `unescapePointer` makes.
unfoldable pub input_token : Bytes → Option Bytes
input_token [] = some []
input_token (b ∷ []) = if not (b == b'~') then some (byte_string b) else none
input_token (b ∷ c ∷ rest) =
    let onward = input_token (c ∷ rest) in
    let behind = input_token rest in
    if not (b == b'~')
    then elim onward [ none ↦ none | some s ↦ some (byte_string b ++ s) ]
    else if not (c == b'0') && not (c == b'1')
    then none
    else elim behind [ none ↦ none | some s ↦ some ((if c == b'0' then b'~' else b'/') ∷ s) ]

module _ {L : Type 0} where
  unfoldable pub set_member : Bytes → Json L → Members L → Members L
  set_member key w no_members = no_members
  set_member key w (member k v ms) =
      let rest = set_member key w ms in if bytes_eq k key then member k w ms else member k v rest

  unfoldable pub set_element : ℕ → Json L → Elements L → Elements L
  set_element i w no_elements = no_elements
  set_element zero w (element v es) = element w es
  set_element (suc i) w (element v es) = element v (set_element i w es)

  -- A placeholder is null, and takes the file.
  unfoldable pub fill : L → Json L → Placed (Json L)
  fill file null = placed (leaf file)
  fill file v = refused invalid_placeholder

  -- The document with its part put back.
  unfoldable pub in_member : Bytes → Members L → Placed (Json L) → Placed (Json L)
  in_member key ms (placed w) = placed (object (set_member key w ms))
  in_member key ms (refused e) = refused e

  unfoldable pub in_element : ℕ → Elements L → Placed (Json L) → Placed (Json L)
  in_element i es (placed w) = placed (array (set_element i w es))
  in_element i es (refused e) = refused e

  module _ (parse_uint : Bytes → Option ℕ) (format_uint : ℕ → Bytes) where
    -- One turn of the loop over the tokens; `next` is what becomes of the part.
    unfoldable pub step : Bytes → (Json L → Placed (Json L)) → Json L → Placed (Json L)
    step token next null = refused invalid_path
    step token next (leaf l) = refused invalid_path
    step token next (object ms) = elim (member_at token ms) [
      | none ↦ refused missing_placeholder
      | some v ↦ in_member token ms (next v)
    ]
    step token next (array es) = elim (parse_uint token) [
      | none ↦ refused invalid_index
      | some i ↦
          if not (bytes_eq (format_uint i) token)
          then refused invalid_index
          else elim (element_at i es) [
            | none ↦ refused invalid_index
            | some v ↦ in_element i es (next v)
          ]
    ]

    unfoldable pub place : L → List Bytes → Json L → Placed (Json L)
    place file [] v = fill file v
    place file (raw ∷ raws) v = elim (input_token raw) [
      | none ↦ refused invalid_pointer
      | some token ↦ step token (place file raws) v
    ]

    -- The pointer, which begins with a slash.
    unfoldable pub place_at : L → Bytes → Json L → Placed (Json L)
    place_at file [] v = refused invalid_pointer
    place_at file (b ∷ pointer) v =
        if not (b == b'/') then refused invalid_pointer else place file (all_segments pointer) v

    -- The loop over the bindings; `seen` holds the files that were bound.
    unfoldable pub bind_all :
        Dict (FileValue L) → List FileBinding → List String → Json L → Placed (Json L × List String)
    bind_all values [] seen params = placed (params, seen)
    bind_all values (b ∷ bs) seen params = elim (lookup b.file_id values) [
      | none ↦ refused invalid_binding
      | some v ↦
          if not (bytes_eq v.pointer b.pointer) || seen_before b.file_id seen
          then refused invalid_binding
          else elim (place_at v.file b.pointer params) [
            | refused e ↦ refused e
            | placed params' ↦ bind_all values bs (b.file_id ∷ seen) params'
          ]
    ]

    -- `replaceInputFiles`.
    unfoldable pub replace_input_files :
        Json L → List FileBinding → Dict (FileValue L) → Placed (Json L)
    replace_input_files params bindings values = elim (bind_all values bindings [] params) [
      | refused e ↦ refused e
      | placed (params', seen) ↦
          if not (length seen == size values) then refused unused_input else placed params'
    ]
