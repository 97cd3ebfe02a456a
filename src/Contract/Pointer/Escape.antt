-- ===== src/Contract/Pointer/Escape.antt =====
-- A key that is escaped as RFC 6901 says is read back.
use onprest.Prelude.{
  ℕ, ◌≡◌, refl, false, [], ◌∷◌, some, inl, inr, Bytes, arith, ◌==◌, ==_iff, if◌then◌else◌,
  Bool-cases,
}
use onprest.Contract.Pointer.{unescape_pointer}

-- RFC 6901: `~` is written `~0` and `/` is written `~1`.
abbrev pub escape_pointer : Bytes → Bytes
escape_pointer [] = []
escape_pointer (b ∷ bs) =
    if b == b'~'
    then b'~' ∷ b'0' ∷ escape_pointer bs
    else if b == b'/'
    then b'~' ∷ b'1' ∷ escape_pointer bs
    else b ∷ escape_pointer bs

unescape-plain :
    (b : ℕ) (bs s : Bytes)
    → (b == b'~') ≡ false
    → unescape_pointer bs ≡ some s
    → unescape_pointer (b ∷ bs) ≡ some (b ∷ s)
unfolding unescape_pointer
unescape-plain b [] s h e = ground arith
unescape-plain b (c ∷ bs) s h e = rw (h, e) refl

-- Any key, escaped as RFC 6901 says, is what unescapePointer makes of it again.
pub unescape-escape_pointer : (key : Bytes) → unescape_pointer (escape_pointer key) ≡ some key
unfolding unescape_pointer
unescape-escape_pointer [] = refl
unescape-escape_pointer (b ∷ bs) = elim (Bool-cases (b == b'~')) [
  | inl t ↦ rw t (rw (unescape-escape_pointer bs) (rw ((==_iff b b'~').0 t) refl))
  | inr t ↦ elim (Bool-cases (b == b'/')) [
    | inl s ↦ rw (t, s) (rw (unescape-escape_pointer bs) (rw ((==_iff b b'/').0 s) refl))
    | inr s ↦ rw (t, s) (unescape-plain b (escape_pointer bs) bs t (unescape-escape_pointer bs))
  ]
]
