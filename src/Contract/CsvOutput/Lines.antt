-- ===== src/Contract/CsvOutput/Lines.antt =====
-- A record that ends with a line feed comes out ending with CR LF, and otherwise as it was written.
use onprest.Prelude.{
  ℕ, suc, ◌≡◌, refl, sym, ap, ◌∙◌, true, false, List, [], ◌∷◌, ◌++◌, append_assoc, append-nil, none,
  some, Bytes, arith, ◌==◌, length, length-append, inl, inr, ==_iff, Bool-cases, if◌then◌else◌,
}
use onprest.Contract.CsvOutput.{
  Terminator, Destination, all_but_last, last_of, outcome, flush, write_body, write_record, finish,
  write_all,
}

-- A destination that takes all that it is given.
abbrev pub buffer : (E : Type 0) → Destination Bytes E
buffer E p w = (w ++ p, length p, none)

abbrev pub concat : List Bytes → Bytes
concat [] = []
concat (p ∷ ps) = p ++ concat ps

-- What was written, with the byte that is held back.
abbrev pub content : Terminator Bytes → Bytes
content t = if t.pending then t.dest ++ t.last ∷ [] else t.dest

all_but_last-last_of : (b : ℕ) (bs : Bytes) → all_but_last b bs ++ last_of b bs ∷ [] ≡ b ∷ bs
unfolding all_but_last last_of
all_but_last-last_of b [] = refl
all_but_last-last_of b (c ∷ bs) = ap (◌∷◌ b) (all_but_last-last_of c bs)

length-all_but_last : (b : ℕ) (bs : Bytes) → length (all_but_last b bs) ≡ length bs
unfolding all_but_last
length-all_but_last b [] = refl
length-all_but_last b (c ∷ bs) = ap suc (length-all_but_last c bs)

snoc_injective : (a b : Bytes) (x y : ℕ) → a ++ x ∷ [] ≡ b ++ y ∷ [] → (a ≡ b) × (x ≡ y)
snoc_injective [] [] x y e = (refl, cc)
snoc_injective [] (d ∷ b) x y e = absurd (omega (arith, ap length e, length-append b (y ∷ [])))
snoc_injective (c ∷ a) [] x y e = absurd (omega (arith, ap length e, length-append a (x ∷ [])))
snoc_injective (c ∷ a) (d ∷ b) x y e = let (same, last) = snoc_injective a b x y cc in (cc, last)

module _ (E : Type 0) where
  body_written :
      (b : ℕ) (bs w : Bytes) (t : Terminator Bytes)
      → write_body (buffer E) b bs w t
        ≡ (record { dest = w ++ all_but_last b bs; last = last_of b bs; pending = true }, none)
  unfolding write_body outcome
  body_written b bs w t =
      let same : (length (all_but_last b bs) == length bs) ≡ true =
        (==_iff _ _).1 (length-all_but_last b bs) in
      rw (same, write_body) refl

  flush-content : (t : Terminator Bytes) → flush (buffer E) t ≡ (content t, none)
  unfolding flush outcome
  flush-content t = elim (Bool-cases t.pending) [
    | inl held ↦ rw (held, flush) refl
    | inr fresh ↦ rw (fresh, flush) refl
  ]

  piece_written :
      (b : ℕ) (bs : Bytes) (t : Terminator Bytes)
      → write_record (buffer E) (b ∷ bs) t ≡ (
        record { dest = content t ++ all_but_last b bs; last = last_of b bs; pending = true },
        none,
      )
  unfolding write_record
  piece_written b bs t =
      ap
        (λ r. elim r.1 [
          | some x ↦ (record t { dest = r.0 }, some x)
          | none ↦ write_body (buffer E) b bs r.0 t
        ])
        (flush-content t)
      ∙ body_written b bs (content t) t

  all_written :
      (b : ℕ) (bs : Bytes) (ps : List Bytes) (t : Terminator Bytes)
      → write_all (buffer E) ((b ∷ bs) ∷ ps) t
        ≡ write_all
            (buffer E)
            ps
            (record { dest = content t ++ all_but_last b bs; last = last_of b bs; pending = true })
  unfolding write_all
  all_written b bs ps t =
      ap (λ r. elim r.1 [ some x ↦ (r.0, some x) | none ↦ write_all (buffer E) ps r.0 ])
        (piece_written b bs t)

  -- The last byte of a piece is held back and stands behind the rest of it.
  held_back :
      (b : ℕ) (bs before after : Bytes)
      → ((before ++ all_but_last b bs) ++ last_of b bs ∷ []) ++ after
        ≡ before ++ ((b ∷ bs) ++ after)
  held_back b bs before after =
      rw (append_assoc before (all_but_last b bs) (last_of b bs ∷ []), all_but_last-last_of b bs)
        (append_assoc before (b ∷ bs) after)

  rest_written :
      (ps : List Bytes) (line d : Bytes) (l : ℕ)
      → (d ++ l ∷ []) ++ concat ps ≡ line ++ b'\n' ∷ []
      → write_all (buffer E) ps (record { dest = d; last = l; pending = true })
        ≡ (record { dest = line ++ b'\r' ∷ b'\n' ∷ []; last = b'\n'; pending = true }, none)
  unfolding write_all finish outcome write_record
  rest_written [] line d l e =
      let (same, last) = snoc_injective d line l b'\n' (sym (append-nil (d ++ l ∷ [])) ∙ e) in
      rw (same, last) refl
  rest_written ([] ∷ ps) line d l e = rest_written ps line d l e
  rest_written ((b ∷ bs) ∷ ps) line d l e =
      all_written b bs ps (record { dest = d; last = l; pending = true })
      ∙ rest_written ps line ((d ++ l ∷ []) ++ all_but_last b bs) (last_of b bs)
          (held_back b bs (d ++ l ∷ []) (concat ps) ∙ e)

  -- The pieces of a record that ends with a line feed, the first of them not empty, come out whole
  -- with CR LF in place of that line feed and no other byte changed, into a fresh terminator whose
  -- destination takes all that it is given.
  pub record_written :
      (b : ℕ) (bs : Bytes) (ps : List Bytes) (line w : Bytes) (l : ℕ)
      → (b ∷ bs) ++ concat ps ≡ line ++ b'\n' ∷ []
      → write_all (buffer E) ((b ∷ bs) ∷ ps) (record { dest = w; last = l; pending = false })
        ≡ (record { dest = w ++ (line ++ b'\r' ∷ b'\n' ∷ []); last = b'\n'; pending = true }, none)
  record_written b bs ps line w l e =
      all_written b bs ps (record { dest = w; last = l; pending = false })
      ∙ (rest_written ps (w ++ line) (w ++ all_but_last b bs) (last_of b bs) (
            held_back b bs w (concat ps) ∙ (ap (◌++◌ w) e ∙ sym (append_assoc w line (b'\n' ∷ []))))
          ∙ rw (append_assoc w line (b'\r' ∷ b'\n' ∷ [])) refl)
