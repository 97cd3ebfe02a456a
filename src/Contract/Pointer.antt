-- ===== src/Contract/Pointer.antt =====
-- JSON pointers: unescapePointer and ResolvePointer of internal/contract/binding.go, outputPointer of
-- internal/contract/csv_output.go, and replaceInputFiles of internal/agent/input_commit.go. A key is a
-- list of bytes. An index is read by `parse_uint`, which is `strconv.ParseUint` in base 10 and 63 bits
-- and `none` its error.
pub mod Escape
pub mod Replace
pub mod Placement
use onprest.Prelude.{
  ℕ, zero, suc, ◌+◌, ◌-◌, Bool, true, false, not, ◌&&◌, ◌||◌, List, [], ◌∷◌, ◌++◌, Option, none,
  some, Bytes, bytes_eq, ltb, leb, ◌==◌, if◌then◌else◌, length, get_elem?,
}
use onprest.Contract.Pattern.{all_digits}

pub data PointerError : Type 0 where
  invalid_escape invalid_pointer missing_key invalid_index missing_index through_scalar undeclared
        no_item_schema :
      PointerError

pub data Outcome (A : Type 0) : Type 0 where
  done : A → Outcome A
  failed : PointerError → Outcome A

-- `unescapePointer`.
unfoldable pub unescape_pointer : Bytes → Option Bytes
unescape_pointer [] = some []
unescape_pointer (b ∷ []) = if not (b == b'~') then some (b ∷ []) else none
unescape_pointer (b ∷ c ∷ rest) =
    let onward = unescape_pointer (c ∷ rest) in
    let behind = unescape_pointer rest in
    if not (b == b'~')
    then elim onward [ none ↦ none | some s ↦ some (b ∷ s) ]
    else if not (c == b'0') && not (c == b'1')
    then none
    else elim behind [ none ↦ none | some s ↦ some ((if c == b'0' then b'~' else b'/') ∷ s) ]

-- The parts of `strings.Split(text, "/")`: the first, and the others.
unfoldable pub segments : Bytes → Bytes × List Bytes
segments [] = ([], [])
segments (b ∷ bs) =
    let (first, others) = segments bs in
    if b == b'/' then ([], first ∷ others) else (b ∷ first, others)

abbrev pub all_segments : Bytes → List Bytes
all_segments bs = let (first, others) = segments bs in first ∷ others

-- A decoded JSON value; `L` is what the scalars and, once they are put in, the files are.
mutual
  pub data Json (L : Type 0) : Type 0 where
    null : Json L
    leaf : L → Json L
    object : Members L → Json L
    array : Elements L → Json L

  pub data Members (L : Type 0) : Type 0 where
    no_members : Members L
    member : Bytes → Json L → Members L → Members L

  pub data Elements (L : Type 0) : Type 0 where
    no_elements : Elements L
    element : Json L → Elements L → Elements L

module _ {L : Type 0} where
  unfoldable pub member_at : Bytes → Members L → Option (Json L)
  member_at key no_members = none
  member_at key (member k v ms) =
      let rest = member_at key ms in if bytes_eq k key then some v else rest

  unfoldable pub element_at : ℕ → Elements L → Option (Json L)
  element_at i no_elements = none
  element_at zero (element v es) = some v
  element_at (suc i) (element v es) = element_at i es

-- The form of an array index: no sign, no leading zero.
abbrev pub index_form : Bytes → Bool
index_form [] = false
index_form (b ∷ []) = all_digits (b ∷ [])
index_form (b ∷ c ∷ rest) = not (b == b'0') && all_digits (b ∷ c ∷ rest)

module _ {L : Type 0} (parse_uint : Bytes → Option ℕ) where
  -- One turn of the loop of `outputPointer`, with the unescaped token.
  unfoldable pub child : Bytes → Json L → Outcome (Json L)
  child token null = failed through_scalar
  child token (leaf l) = failed through_scalar
  child token (object ms) = elim (member_at token ms) [
    | none ↦ failed missing_key
    | some v ↦ done v
  ]
  child token (array es) =
      if not (index_form token) then failed invalid_index else elim (parse_uint token) [
        | none ↦ failed missing_index
        | some i ↦ elim (element_at i es) [ none ↦ failed missing_index | some v ↦ done v ]
      ]

  unfoldable pub follow : List Bytes → Json L → Outcome (Json L)
  follow [] v = done v
  follow (raw ∷ raws) v = elim (unescape_pointer raw) [
    | none ↦ failed invalid_escape
    | some token ↦ elim (child token v) [ failed e ↦ failed e | done w ↦ follow raws w ]
  ]

  -- `outputPointer`.
  unfoldable pub output_pointer : Json L → Bytes → Outcome (Json L)
  output_pointer v [] = done v
  output_pointer v (b ∷ pointer) =
      if not (b == b'/') then failed invalid_pointer else follow (all_segments pointer) v
