-- ===== src/Samples/Pointers.antt =====
-- JSON pointers on concrete inputs.
use onprest.Prelude.{
  ℕ, ◌+◌, ◌-◌, ◌≡◌, refl, true, [], ◌∷◌, Option, none, some, Bytes, bytes_eq, codes, arith, ltb,
  ◌||◌, if◌then◌else◌,
}
use onprest.Contract.Pattern.{all_digits}
use onprest.Contract.Pointer.{
  Json, null, leaf, object, array, member, no_members, element, no_elements, done, child, follow,
  index_form, unescape_pointer, member_at, element_at,
}
use onprest.Contract.Pointer.Replace.{
  placed, refused, missing_placeholder, input_token, byte_string, place, step, fill, in_member,
  in_element, set_member, set_element,
}
use onprest.Contract.Pointer.Placement.{follow-place}

abbrev one_digit : Bytes → Option ℕ
one_digit [] = none
one_digit (b ∷ []) = if ltb b 48 || ltb 57 b then none else some (b - 48)
one_digit (b ∷ c ∷ rest) = none

abbrev digit : ℕ → Bytes
digit i = (48 + i) ∷ []

one_digit_is_canonical :
    (i : ℕ) (t : Bytes) → one_digit t ≡ some i → bytes_eq (digit i) t ≡ true → index_form t ≡ true
unfolding all_digits
one_digit_is_canonical i [] e b = absurd (ground arith)
one_digit_is_canonical i (x ∷ []) e b = ground arith
one_digit_is_canonical i (x ∷ y ∷ t) e b = absurd (ground arith)

abbrev with_file : Json ℕ → Json ℕ
with_file v = object (member (codes "a/b") (array (element v no_elements)) no_members)

file_is_placed :
    place one_digit digit 7 (codes "a~1b" ∷ codes "0" ∷ []) (with_file null)
    ≡ placed (with_file (leaf 7))
unfolding place step fill in_member in_element set_member set_element input_token byte_string
    member_at element_at bytes_eq
file_is_placed = refl

follow-place_example :
    follow one_digit (codes "a~1b" ∷ codes "0" ∷ []) (with_file (leaf 7)) ≡ done (leaf 7)
follow-place_example =
    follow-place one_digit digit one_digit_is_canonical 7 (codes "a~1b" ∷ codes "0" ∷ [])
      (with_file null) (with_file (leaf 7)) refl file_is_placed

-- The member `é`, which UTF-8 writes as the bytes 195 and 169: outputPointer selects it, and
-- replaceInputFiles looks for another and finds no placeholder.
abbrev accented : Json ℕ
accented = object (member (195 ∷ 169 ∷ []) null no_members)

accented_is_selected : follow one_digit ((195 ∷ 169 ∷ []) ∷ []) accented ≡ done null
unfolding follow unescape_pointer child member_at bytes_eq
accented_is_selected = refl

accented_is_missed :
    place one_digit digit 7 ((195 ∷ 169 ∷ []) ∷ []) accented ≡ refused missing_placeholder
unfolding place step input_token byte_string member_at bytes_eq
accented_is_missed = refl
