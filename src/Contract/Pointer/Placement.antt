-- ===== src/Contract/Pointer/Placement.antt =====
-- A file that is put in at a pointer is what the pointer selects.
use onprest.Prelude.{
  ℕ, zero, suc, ◌∙◌, ltb, ◌&&◌, arith, Bool, ◌≡◌, refl, sym, ◌⊎◌, true, List, [], ◌∷◌, Option, some,
  none≢some, inl, inr, Bytes, bytes_eq, Bool-cases, Option-cases,
}
use onprest.Contract.Pointer.{
  Json, null, leaf, object, array, Members, no_members, member, Elements, no_elements, element,
  member_at, element_at, unescape_pointer, index_form, done, child, follow,
}
use onprest.Contract.Pointer.Replace.{
  InputError, Placed, placed, refused, set_member, set_element, fill, input_token, byte_string,
  in_member, in_element, step, place,
}

member_at-set_member :
    {L : Type 0} (key : Bytes) (v w : Json L) (ms : Members L)
    → member_at key ms ≡ some v
    → member_at key (set_member key w ms) ≡ some w
unfolding member_at set_member
member_at-set_member key v w no_members e = absurd (none≢some e)
member_at-set_member key v w (member k u ms) e = elim (Bool-cases (bytes_eq k key)) [
  | inl s ↦ rw (s, set_member) (rw (s, member_at) refl)
  | inr o ↦
      rw (o, set_member)
        (rw (o, member_at) (member_at-set_member key v w ms (rw (o, member_at) at e)))
]

element_at-set_element :
    {L : Type 0} (i : ℕ) (v w : Json L) (es : Elements L)
    → element_at i es ≡ some v
    → element_at i (set_element i w es) ≡ some w
unfolding element_at set_element
element_at-set_element i v w no_elements e = absurd (none≢some e)
element_at-set_element zero v w (element u es) e = refl
element_at-set_element (suc i) v w (element u es) e = element_at-set_element i v w es e

abbrev pub is_ascii : Bytes → Bool
is_ascii [] = true
is_ascii (b ∷ bs) = ltb b 128 && is_ascii bs

abbrev pub all_ascii : List Bytes → Bool
all_ascii [] = true
all_ascii (raw ∷ raws) = is_ascii raw && all_ascii raws

both : (a b : Bool) → (a && b) ≡ true → (a ≡ true) × (b ≡ true)
both a b h = ground (arith, h)

-- On ASCII the two readings of a token are one.
input_token-unescape : (raw : Bytes) → is_ascii raw ≡ true → input_token raw ≡ unescape_pointer raw
unfolding input_token unescape_pointer byte_string
input_token-unescape [] h = refl
input_token-unescape (b ∷ []) h = ground arith
input_token-unescape (b ∷ c ∷ rest) h =
    let (small, others) = both (ltb b 128) (is_ascii (c ∷ rest)) h in
    let onward = input_token-unescape (c ∷ rest) others in
    let behind = input_token-unescape rest (both (ltb c 128) (is_ascii rest) others).1 in
    elim (Option-cases (unescape_pointer (c ∷ rest))) [
      | inl bad ↦ rw (onward, behind, bad) refl
      | inr (s, good) ↦ rw (onward, behind, good) (rw small refl)
    ]

refused≢placed : {A : Type 0} (x : InputError) (a : A) → refused x ≡ placed a → ⊥
refused≢placed x a e = cc

placed_inj : {A : Type 0} (a b : A) → placed a ≡ placed b → a ≡ b
placed_inj a b e = cc

Placed-cases :
    {A : Type 0} (p : Placed A) → ((a : A) × (p ≡ placed a)) ⊎ ((x : InputError) × (p ≡ refused x))
Placed-cases (placed a) = inl (a, refl)
Placed-cases (refused x) = inr (x, refl)

module _ {L : Type 0} (parse_uint : Bytes → Option ℕ) (format_uint : ℕ → Bytes)
    (canonical : (i : ℕ) (t : Bytes)
      → parse_uint t ≡ some i
      → bytes_eq (format_uint i) t ≡ true
      → index_form t ≡ true) where
  -- The part that a step changed is the part that the token selects.
  child-step :
      (token : Bytes) (next : Json L → Placed (Json L)) (v v' : Json L)
      → step parse_uint format_uint token next v ≡ placed v'
      → (u : Json L) × (u' : Json L) × (next u ≡ placed u') × (child parse_uint token v' ≡ done u')
  unfolding step child in_member in_element
  child-step token next null v' e = absurd (refused≢placed _ _ e)
  child-step token next (leaf l) v' e = absurd (refused≢placed _ _ e)
  child-step token next (object ms) v' e = elim (Option-cases (member_at token ms)) [
    | inl none_there ↦ absurd (refused≢placed _ _ (rw (none_there, step) at e))
    | inr (u, there) ↦ elim (Placed-cases (next u)) [
      | inr (x, bad) ↦ absurd (refused≢placed _ _ (rw (there, bad, step) at e))
      | inl (u', ok) ↦
          let is : object (set_member token u' ms) ≡ v' =
            placed_inj _ _ (rw (there, ok, step) at e) in
          (u, u', ok, rw (sym is) (rw (member_at-set_member token u u' ms there, child) refl))
    ]
  ]
  child-step token next (array es) v' e = elim (Option-cases (parse_uint token)) [
    | inl unread ↦ absurd (refused≢placed _ _ (rw (unread, step) at e))
    | inr (i, read) ↦ elim (Bool-cases (bytes_eq (format_uint i) token)) [
      | inr other ↦ absurd (refused≢placed _ _ (rw (read, other, step) at e))
      | inl same ↦ elim (Option-cases (element_at i es)) [
        | inl none_there ↦ absurd (refused≢placed _ _ (rw (read, same, none_there, step) at e))
        | inr (u, there) ↦ elim (Placed-cases (next u)) [
          | inr (x, bad) ↦ absurd (refused≢placed _ _ (rw (read, same, there, bad, step) at e))
          | inl (u', ok) ↦
              let is : array (set_element i u' es) ≡ v' =
                placed_inj _ _ (rw (read, same, there, ok, step) at e) in
              (
                u,
                u',
                ok,
                rw (sym is) (
                    rw
                      (
                        canonical i token read same,
                        read,
                        element_at-set_element i u u' es there,
                        child,
                      )
                      refl),
              )
        ]
      ]
    ]
  ]

  -- Where every canonical index token has the form of an index and the tokens are ASCII, a file
  -- that replaceInputFiles places at a pointer's tokens is what the loop of outputPointer selects
  -- by the same tokens in the result.
  pub follow-place :
      (file : L) (raws : List Bytes) (v v' : Json L)
      → all_ascii raws ≡ true
      → place parse_uint format_uint file raws v ≡ placed v'
      → follow parse_uint raws v' ≡ done (leaf file)
  unfolding follow place fill
  follow-place file [] null v' ascii e = rw (sym (placed_inj _ _ e)) refl
  follow-place file [] (leaf l) v' ascii e = absurd (refused≢placed _ _ e)
  follow-place file [] (object ms) v' ascii e = absurd (refused≢placed _ _ e)
  follow-place file [] (array es) v' ascii e = absurd (refused≢placed _ _ e)
  follow-place file (raw ∷ raws) v v' ascii e = elim (Option-cases (input_token raw)) [
    | inl bad ↦ absurd (refused≢placed _ _ (rw (bad, place) at e))
    | inr (token, ok) ↦
        let (plain, others) = both (is_ascii raw) (all_ascii raws) ascii in
        let read : unescape_pointer raw ≡ some token = sym (input_token-unescape raw plain) ∙ ok in
        let (u, u', inner, selected) =
          child-step token (place parse_uint format_uint file raws) v v' (rw (ok, place) at e) in
        rw (read, selected, follow) (follow-place file raws u u' others inner)
  ]
