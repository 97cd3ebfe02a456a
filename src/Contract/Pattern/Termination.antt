-- ===== src/Contract/Pattern/Termination.antt =====
-- The check of a pattern ends: each round moves the cursor forward.
use onprest.Prelude.{
  ℕ, ◌+◌, ◌<◌, ◌≡◌, refl, Bool, false, Option, some, inl, inr, Option-cases, Bool-cases, Bytes,
  arith, length, drop,
}
use onprest.Prelude.Cursor.{Flow, goto, return, scan_total}
use onprest.Sql.Regions.{index_byte}
use onprest.Contract.Pattern.{
  Check, Compiled, refused, pattern_of, not_unicode, unterminated_class, refused_by_parser, byte_at,
  escape_step, brace_step, class_step, group_step, syntax_step, byte_step, pattern_step, check,
  compile_pattern, unescape_slash,
}

-- A step that goes on does so beyond `i`.
unfoldable pub Beyond : ℕ → Flow Check → Type 0
Beyond i (goto j s) = i < j
Beyond i (return s) = Unit

module _ (parse_hex : Bytes → Bool) (source : Bytes) (i : ℕ) (s : Check) where
  escape_step-Beyond : Beyond i (escape_step parse_hex source (i + 1) s)
  unfolding Beyond escape_step
  escape_step-Beyond = ground arith

  brace_step-Beyond : Beyond i (brace_step source i s)
  unfolding Beyond brace_step
  brace_step-Beyond = elim (Option-cases (index_byte b'}' (drop (i + 1) source))) [
    | inl open_ended ↦ rw (open_ended, brace_step) tt
    | inr (end, e) ↦ rw (e, brace_step) (ground arith)
  ]

  class_step-Beyond : Beyond i (class_step source i s)
  unfolding Beyond class_step
  class_step-Beyond = ground arith

  group_step-Beyond : Beyond i (group_step source i s)
  unfolding Beyond group_step
  group_step-Beyond = ground arith

  syntax_step-Beyond : (c : ℕ) → Beyond i (syntax_step source c i s)
  unfolding Beyond syntax_step
  syntax_step-Beyond c = ground (arith, class_step-Beyond, group_step-Beyond, brace_step-Beyond)

  byte_step-Beyond : (c : ℕ) (anchor : Bool) → Beyond i (byte_step parse_hex source c anchor i s)
  unfolding Beyond byte_step
  byte_step-Beyond c anchor = ground (arith, escape_step-Beyond, syntax_step-Beyond c)

module _ (parse_hex : Bytes → Bool) (source : Bytes) where
  pattern_step-lt :
      (i : ℕ) (s : Check) (j : ℕ) (t : Check)
      → i < length source
      → pattern_step parse_hex source i s ≡ goto j t
      → i < j
  unfolding pattern_step Beyond
  pattern_step-lt i s j t h e =
      let b =
        byte_step-Beyond parse_hex source i (record s { after_anchor = false }) (byte_at source i)
          s.after_anchor in
      rw e at b

  check_total : (s : Check) × (check parse_hex source ≡ some s)
  unfolding check
  check_total =
      scan_total (length source) (pattern_step parse_hex source) pattern_step-lt _ 0 _ (omega arith)

-- CompilePattern returns a result on every source, whatever the library's functions answer.
pub compile_pattern_total :
    {P : Type 0} (valid_string parse_hex : Bytes → Bool) (compile : Bytes → Option P)
    (source : Bytes)
    → (r : Compiled P) × (compile_pattern valid_string parse_hex compile source ≡ some r)
unfolding compile_pattern
compile_pattern_total valid_string parse_hex compile source =
    let (s, e) = check_total parse_hex source in
    elim (Bool-cases (valid_string source)) [
      | inr bad ↦ (refused not_unicode, rw (bad, compile_pattern) refl)
      | inl good ↦ elim (Option-cases s.failure) [
        | inr (x, f) ↦ (refused x, rw (good, e, f, compile_pattern) refl)
        | inl f ↦ elim (Bool-cases s.in_class) [
          | inl c ↦ (refused unterminated_class, rw (good, e, f, c, compile_pattern) refl)
          | inr c ↦ elim (Option-cases (compile (unescape_slash source))) [
            | inl n ↦ (refused refused_by_parser, rw (good, e, f, c, n, compile_pattern) refl)
            | inr (p, y) ↦ (pattern_of p, rw (good, e, f, c, y, compile_pattern) refl)
          ]
        ]
      ]
    ]
