-- ===== src/Contract/Integer/Value.antt =====
-- The digits and zeros of an integral number stand for the value of its text.
use onprest.Prelude.{
  ℕ, zero, suc, ◌+◌, ◌-◌, ◌*◌, ◌≤◌, ◌≡◌, refl, sym, ap, ◌∙◌, inl, inr, Bool, true, ◌&&◌, [], ◌∷◌,
  ◌++◌, some, arith, Bytes, ltb, ◌==◌, ==_iff, length, Bool-cases, some_inj, none≢some,
}
use onprest.Contract.Integer.{Number, is_empty, trim_left, trim_right, shifted}

-- The number that digits denote after those that denote `n`.
unfoldable pub value_from : ℕ → Bytes → ℕ
value_from n [] = n
value_from n (b ∷ bs) = value_from (n * 10 + (b - 48)) bs

unfoldable pub ten_to : ℕ → ℕ
ten_to zero = 1
ten_to (suc n) = 10 * ten_to n

value-trim_left : (bs : Bytes) → value_from 0 (trim_left bs) ≡ value_from 0 bs
unfolding value_from trim_left
value-trim_left [] = refl
value-trim_left (b ∷ bs) = elim (Bool-cases (b == 48)) [
  | inl z ↦ rw (z, (==_iff b 48).0 z) (value-trim_left bs)
  | inr d ↦ rw d
]

length-trim_right : (bs : Bytes) → length (trim_right bs) ≤ length bs
unfolding trim_right
length-trim_right [] = omega arith
length-trim_right (b ∷ bs) = ground (arith, length-trim_right bs)

is_empty-nil : (bs : Bytes) → is_empty bs ≡ true → bs ≡ []
is_empty-nil [] e = refl
is_empty-nil (b ∷ bs) e = absurd (ground arith)

value-trim_right :
    (n k : ℕ) (bs : Bytes)
    → length (trim_right bs) + k ≡ length bs
    → value_from n bs ≡ value_from n (trim_right bs) * ten_to k
unfolding value_from trim_right ten_to
value-trim_right n zero [] e = omega arith
value-trim_right n (suc k) [] e = absurd (omega arith)
value-trim_right n k (b ∷ bs) e = elim (Bool-cases (b == 48 && is_empty (trim_right bs))) [
  | inl z ↦
      let nothing : trim_right bs ≡ [] = is_empty-nil (trim_right bs) (ground arith) in
      let long : k ≡ suc (length bs) = (let h = rw (z, trim_right) at e in omega arith) in
      let rest = value-trim_right (n * 10) (length bs) bs (ground (arith, ap length nothing)) in
      let digit : n * 10 + (b - 48) ≡ n * 10 = ground arith in
      rw (z, trim_right) (rw (digit, long) (rw nothing at rest ∙ omega arith))
  | inr d ↦
      let e' : length (trim_right bs) + k ≡ length bs =
        (let h = rw (d, trim_right) at e in omega arith) in
      rw (d, trim_right) (value-trim_right (n * 10 + (b - 48)) k bs e')
]

ten_to-add : (m n : ℕ) → ten_to (m + n) ≡ ten_to m * ten_to n
unfolding ten_to
ten_to-add zero n = let e : 0 + n ≡ n = omega arith in rw e (omega arith)
ten_to-add (suc m) n =
    let e : suc m + n ≡ suc (m + n) = omega arith in rw (e, ten_to-add m n) (omega arith)

-- Zeros that are taken off, with the exponent moved by as many, leave the value as it is.
moved :
    (v t up down k zeros : ℕ)
    → v ≡ t * ten_to k
    → zeros + down ≡ up + k
    → t * ten_to zeros * ten_to down ≡ v * ten_to up
moved v t up down k zeros e h =
    let a : ten_to zeros * ten_to down ≡ ten_to up * ten_to k =
      sym (ten_to-add zeros down) ∙ (ap ten_to h ∙ ten_to-add up k) in
    let b : t * ten_to zeros * ten_to down ≡ t * (ten_to zeros * ten_to down) = omega arith in
    rw (b, a, e) (omega arith)

-- Where the exact-integer computation gives a number, its digits followed by its zeros, times ten
-- to what the exponent and the fraction's length take away, is the value of the mantissa's digits
-- times ten to what the exponent adds.
pub shifted-value :
    (negative : Bool) (whole fraction : Bytes) (up down : ℕ) (n : Number)
    → shifted negative whole fraction up down ≡ some n
    → value_from 0 n.digits * ten_to n.zeros * ten_to (down + length fraction)
      ≡ value_from 0 (whole ++ fraction) * ten_to up
unfolding shifted value_from
shifted-value negative whole fraction up down n e =
    let sig = trim_left (whole ++ fraction) in
    let v = value-trim_left (whole ++ fraction) in
    let k = length sig - length (trim_right sig) in
    elim (Bool-cases (is_empty sig)) [
      | inl nothing ↦
          let is : record { negative = negative; digits = []; zeros = 0 } ≡ n =
            some_inj (rw (nothing, shifted) at e) in
          let z : value_from 0 (whole ++ fraction) ≡ 0 =
            sym v ∙ ap (value_from 0) (is_empty-nil sig nothing) in
          rw (sym is, z) (omega arith)
      | inr something ↦ elim (Bool-cases (ltb (up + k) (down + length fraction))) [
        | inl under ↦ absurd (none≢some (rw (something, under, shifted) at e))
        | inr over ↦
            let is : record {
              negative = negative;
              digits = trim_right sig;
              zeros = up + k - (down + length fraction);
            }
                ≡ n =
              some_inj (rw (something, over, shifted) at e) in
            rw (sym is) (
              moved (value_from 0 (whole ++ fraction)) (value_from 0 (trim_right sig)) up
                (down + length fraction) k _
                (sym v ∙ value-trim_right 0 k sig (omega (arith, length-trim_right sig)))
                (ground arith))
      ]
    ]
