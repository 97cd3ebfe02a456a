-- ===== src/Contract/Integer.antt =====
-- internal/contract/json_integer.go. The exponent is carried as what is added to it and what is taken
-- from it, both natural numbers: it stays below 2 ^ 44 in magnitude, but for the length of the text,
-- so that int64 does not wrap.
pub mod Value
use onprest.Prelude.{
  ℕ, zero, suc, ◌+◌, ◌-◌, ◌*◌, Bool, true, false, not, ◌&&◌, ◌||◌, List, [], ◌∷◌, ◌++◌, Option,
  none, some, Bytes, ltb, leb, ◌==◌, if◌then◌else◌, length,
}

pub record Number : Type 0 where
  pub negative : Bool
  pub digits : Bytes
  pub zeros : ℕ

-- `strings.Cut` at the first byte that `test` takes: what is before it, and after it if there is one.
unfoldable pub cut : (ℕ → Bool) → Bytes → Bytes × Option Bytes
cut test [] = ([], none)
cut test (b ∷ bs) =
    let (before, after) = cut test bs in if test b then ([], some bs) else (b ∷ before, after)

abbrev pub is_exponent_mark : ℕ → Bool
is_exponent_mark b = b == 101 || b == 69

abbrev pub is_point : ℕ → Bool
is_point b = b == 46

unfoldable pub decimal_digits : Bytes → Bool
decimal_digits [] = true
decimal_digits (b ∷ bs) = not (ltb b 48 || ltb 57 b) && decimal_digits bs

abbrev pub is_empty : Bytes → Bool
is_empty [] = true
is_empty (b ∷ bs) = false

-- `strings.TrimLeft` and `strings.TrimRight` of zeros.
unfoldable pub trim_left : Bytes → Bytes
trim_left [] = []
trim_left (b ∷ bs) = let rest = trim_left bs in if b == 48 then rest else b ∷ bs

unfoldable pub trim_right : Bytes → Bytes
trim_right [] = []
trim_right (b ∷ bs) = let rest = trim_right bs in if b == 48 && is_empty rest then [] else b ∷ rest

-- The loop over the digits of the exponent, which saturates.
unfoldable pub exponent_value : ℕ → Bytes → ℕ
exponent_value exp [] = exp
exponent_value exp (c ∷ cs) =
    exponent_value (if ltb exp 1099511627776 then exp * 10 + (c - 48) else exp) cs

-- The sign of the exponent, with its digits.
unfoldable pub exponent_sign : Bytes → Bool × Bytes
exponent_sign [] = (false, [])
exponent_sign (b ∷ bs) =
    if b == 43 then (false, bs) else if b == 45 then (true, bs) else (false, b ∷ bs)

-- The exponent, as what it adds and what it takes; `none` where it is malformed.
unfoldable pub exponent : Option Bytes → Option (ℕ × ℕ)
exponent none = some (0, 0)
exponent (some text) =
    let (minus, digits) = exponent_sign text in
    if is_empty digits || not (decimal_digits digits)
    then none
    else if minus
    then some (0, exponent_value 0 digits)
    else some (exponent_value 0 digits, 0)

-- The part after the syntax: `up` and `down` are what the exponent adds and takes.
unfoldable pub shifted : Bool → Bytes → Bytes → ℕ → ℕ → Option Number
shifted negative whole fraction up down =
    let significand = trim_left (whole ++ fraction) in
    let trimmed = trim_right significand in
    let up' = up + (length significand - length trimmed) in
    let down' = down + length fraction in
    if is_empty significand
    then some (record { negative = negative; digits = []; zeros = 0 })
    else if ltb up' down'
    then none
    else some (record { negative = negative; digits = trimmed; zeros = up' - down' })

-- `fraction` is `none` where the mantissa has no point.
unfoldable pub well_formed : Bytes → Option Bytes → Bool
well_formed whole none = not (is_empty whole) && decimal_digits whole
well_formed whole (some fraction) =
    (not (is_empty whole) && decimal_digits whole)
    && (not (is_empty fraction) && decimal_digits fraction)

abbrev pub or_empty : Option Bytes → Bytes
or_empty none = []
or_empty (some bs) = bs

unfoldable pub unsigned : Bool → Bytes → Option Number
unsigned negative s =
    let (mantissa, exponent_text) = cut is_exponent_mark s in
    let (whole, fraction) = cut is_point mantissa in
    if not (well_formed whole fraction) then none else elim (exponent exponent_text) [
      | none ↦ none
      | some (up, down) ↦ shifted negative whole (or_empty fraction) up down
    ]

-- `integralJSONNumber`; `none` is `ok` false.
unfoldable pub integral_json_number : Bytes → Option Number
integral_json_number [] = unsigned false []
integral_json_number (b ∷ bs) = if b == 45 then unsigned true bs else unsigned false (b ∷ bs)

-- `JSONNumberIsInteger`.
unfoldable pub json_number_is_integer : Bytes → Bool
json_number_is_integer text = elim (integral_json_number text) [ none ↦ false | some n ↦ true ]

unfoldable pub zeros_of : ℕ → Bytes
zeros_of zero = []
zeros_of (suc n) = 48 ∷ zeros_of n

-- `JSONNumberInt64`; `parse_int` is `strconv.ParseInt` in base 10 and 64 bits, `none` its error, and
-- `nought` the number 0.
unfoldable pub json_number_int64 : {Z : Type 0} → Z → (Bytes → Option Z) → Bytes → Option Z
json_number_int64 nought parse_int text = elim (integral_json_number text) [
  | none ↦ none
  | some n ↦
      if is_empty n.digits
      then some nought
      else if ltb 19 (length n.digits + n.zeros)
      then none
      else parse_int
          (if n.negative then 45 ∷ n.digits ++ zeros_of n.zeros else n.digits ++ zeros_of n.zeros)
]
