-- ===== src/Contract/CsvOutput.antt =====
-- internal/contract/csv_output.go: the writer that ends each record with CR LF, and the escape of a
-- formula. A destination is any type `W` with a `Write` that gives its next state, the bytes that it
-- took, and whether it failed.
pub mod Lines
use onprest.Prelude.{
  ℕ, zero, suc, ◌+◌, ◌-◌, Bool, true, false, not, ◌&&◌, ◌||◌, List, [], ◌∷◌, ◌++◌, Option, none,
  some, Bytes, ◌==◌, if◌then◌else◌, length, take,
}
use onprest.Contract.Pattern.{member}

pub data WriteError (E : Type 0) : Type 0 where
  short_write invalid_termination : WriteError E
  destination : E → WriteError E

-- `io.Writer`.
abbrev pub Destination : Type 0 → Type 0 → Type 0
Destination W E = Bytes → W → W × ℕ × Option E

pub record Terminator (W : Type 0) : Type 0 where
  pub dest : W
  pub last : ℕ
  pub pending : Bool

-- `p[:len(p)-1]` and `p[len(p)-1]` of the bytes `b ∷ bs`.
unfoldable pub all_but_last : ℕ → Bytes → Bytes
all_but_last b [] = []
all_but_last b (c ∷ bs) = b ∷ all_but_last c bs

unfoldable pub last_of : ℕ → Bytes → ℕ
last_of b [] = b
last_of b (c ∷ bs) = last_of c bs

unfoldable pub starts_formula : Bytes → Bool
starts_formula [] = false
starts_formula (b ∷ bs) = b == b'=' || (b == b'+' || (b == b'-' || b == b'@'))

module _ {W E : Type 0} (write : Destination W E) where
  -- What a call of the destination comes to, for `n` bytes that were to be written.
  unfoldable pub outcome : ℕ → ℕ → Option E → Option (WriteError E)
  outcome expected n (some e) = some (destination e)
  outcome expected n none = if not (n == expected) then some short_write else none

  unfoldable pub flush : Terminator W → W × Option (WriteError E)
  flush t =
      let (w, n, e) = write (t.last ∷ []) t.dest in
      if t.pending then (w, outcome 1 n e) else (t.dest, none)

  unfoldable pub write_body : ℕ → Bytes → W → Terminator W → Terminator W × Option (WriteError E)
  write_body b bs w t =
      let (w', n, e) = write (all_but_last b bs) w in
      elim (outcome (length bs) n e) [
        | some x ↦ (record t { dest = w' }, some x)
        | none ↦ (record { dest = w'; last = last_of b bs; pending = true }, none)
      ]

  -- `Write`; the count that it returns is the whole length where there is no error.
  unfoldable pub write_record : Bytes → Terminator W → Terminator W × Option (WriteError E)
  write_record [] t = (t, none)
  write_record (b ∷ bs) t =
      let (w, error) = flush t in
      elim error [ some x ↦ (record t { dest = w }, some x) | none ↦ write_body b bs w t ]

  -- `finish`.
  unfoldable pub finish : Terminator W → Terminator W × Option (WriteError E)
  finish t =
      let (w, n, e) = write (b'\r' ∷ b'\n' ∷ []) t.dest in
      if not t.pending || not (t.last == b'\n')
      then (t, some invalid_termination)
      else (record t { dest = w }, outcome 2 n e)

  -- The writes that a record comes in, and `finish`.
  unfoldable pub write_all : List Bytes → Terminator W → Terminator W × Option (WriteError E)
  write_all [] t = finish t
  write_all (p ∷ ps) t =
      let (t', error) = write_record p t in
      elim error [ some x ↦ (t', some x) | none ↦ write_all ps t' ]

unfoldable pub contains_any : Bytes → Bytes → Bool
contains_any set [] = false
contains_any set (b ∷ bs) = member b set || contains_any set bs

-- `escapeFormula`; `trim_spaces` is `strings.TrimLeftFunc` with `unicode.IsSpace`.
unfoldable pub escape_formula : (Bytes → Bytes) → Bytes → Bytes
escape_formula trim_spaces v =
    let trimmed = trim_spaces v in
    if contains_any (b'\t' ∷ b'\r' ∷ []) (take (length v - length trimmed) v)
      || starts_formula trimmed
    then b'\'' ∷ v
    else v
