-- ===== src/Prelude/Cursor.antt =====
-- A Go loop `for i := 0; i < len; { … }` that moves its cursor by itself. A step moves the cursor
-- or returns; `none` means that the fuel ran out.
use onprest.Prelude.Tests.{ltb, if◌then◌else◌, some_inj, none≢some}
use Prim.Native.Nat.{ℕ, zero, suc, ◌-◌, ◌≤◌, ◌<◌}
use mathlib.Core.Path.{◌≡◌, refl, sym, ap, subst, subst₂, ◌∙◌}
use mathlib.Core.Logic.{inl, inr, ◌⊎◌}
use mathlib.Core.Option.{Option, none, some}
use native.Mathlib.Omega.{arith}
use native.Mathlib.Decide.{dec_lt}

pub data Flow {ℓ} (S : Type ℓ) : Type ℓ where
  goto : ℕ → S → Flow S
  return : S → Flow S

module _ {ℓ} {S : Type ℓ} where
  abbrev resume : (ℕ → S → Option S) → Flow S → Option S
  resume again (goto j t) = again j t
  resume again (return t) = some t

  unfoldable pub scan : ℕ → ℕ → (ℕ → S → Flow S) → ℕ → S → Option S
  scan zero n step i s = none
  scan (suc f) n step i s = if ltb i n then resume (scan f n step) (step i s) else some s

  Flow-cases : (w : Flow S) → ((j : ℕ) × (t : S) × (w ≡ goto j t)) ⊎ ((t : S) × (w ≡ return t))
  Flow-cases (goto j t) = inl (j, t, refl)
  Flow-cases (return t) = inr (t, refl)

  pub scan-goto :
      (f n : ℕ) (step : ℕ → S → Flow S) (i : ℕ) (s : S) {j : ℕ} {t : S}
      → i < n
      → step i s ≡ goto j t
      → scan (suc f) n step i s ≡ scan f n step j t
  unfolding scan
  scan-goto f n step i s h e = rw e (ground arith)

  pub scan-return :
      (f n : ℕ) (step : ℕ → S → Flow S) (i : ℕ) (s : S) {t : S}
      → i < n
      → step i s ≡ return t
      → scan (suc f) n step i s ≡ some t
  unfolding scan
  scan-return f n step i s h e = rw e (ground arith)

  pub scan_end :
      (f n : ℕ) (step : ℕ → S → Flow S) (i : ℕ) (s : S) → n ≤ i → scan (suc f) n step i s ≡ some s
  unfolding scan
  scan_end f n step i s h = ground arith

  -- A loop whose step only moves forward ends within `n + 1 - i` rounds.
  pub scan_total :
      (n : ℕ) (step : ℕ → S → Flow S)
      → ((i : ℕ) (s : S) (j : ℕ) (t : S) → i < n → step i s ≡ goto j t → i < j)
      → (f i : ℕ) (s : S) → n - i < f
      → (r : S) × (scan f n step i s ≡ some r)
  scan_total n step advances zero i s h = absurd (omega arith)
  scan_total n step advances (suc f) i s h = elim (dec_lt i n) [
    | no past ↦ (s, scan_end f n step i s (omega arith))
    | yes inside ↦ elim (Flow-cases (step i s)) [
      | inr (t, e) ↦ (t, scan-return f n step i s inside e)
      | inl (j, t, e) ↦
          let ahead = advances i s j t inside e in
          let (r, ended) = scan_total n step advances f j t (omega arith) in
          (r, scan-goto f n step i s inside e ∙ ended)
    ]
  ]

  -- Fuel beyond what the loop needs changes nothing.
  pub scan_fuel :
      (n : ℕ) (step : ℕ → S → Flow S)
      → ((i : ℕ) (s : S) (j : ℕ) (t : S) → i < n → step i s ≡ goto j t → i < j)
      → (f g i : ℕ) (s : S) → n - i < f
      → n - i < g
      → scan f n step i s ≡ scan g n step i s
  scan_fuel n step advances zero g i s h k = absurd (omega arith)
  scan_fuel n step advances (suc f) zero i s h k = absurd (omega arith)
  scan_fuel n step advances (suc f) (suc g) i s h k = elim (dec_lt i n) [
    | no past ↦
        let over : n ≤ i = omega arith in
        scan_end f n step i s over ∙ sym (scan_end g n step i s over)
    | yes inside ↦ elim (Flow-cases (step i s)) [
      | inr (t, e) ↦ scan-return f n step i s inside e ∙ sym (scan-return g n step i s inside e)
      | inl (j, t, e) ↦
          let ahead = advances i s j t inside e in
          scan-goto f n step i s inside e
          ∙ scan_fuel n step advances f g j t (omega arith) (omega arith)
          ∙ sym (scan-goto g n step i s inside e)
    ]
  ]

  abbrev pub Keeps {κ} : (ℕ → S → Type κ) → (S → Type κ) → Flow S → Type κ
  Keeps P R (goto j t) = P j t
  Keeps P R (return t) = R t

  -- What every step keeps holds at the end.
  pub scan_inv {κ} :
      (P : ℕ → S → Type κ) (R : S → Type κ) (n : ℕ) (step : ℕ → S → Flow S)
      → ((i : ℕ) (s : S) → i < n → P i s → Keeps P R (step i s))
      → ((i : ℕ) (s : S) → n ≤ i → P i s → R s)
      → (f i : ℕ) (s : S) {r : S} → P i s
      → scan f n step i s ≡ some r
      → R r
  unfolding scan
  scan_inv P R n step keep finish zero i s h e = absurd (none≢some e)
  scan_inv P R n step keep finish (suc f) i s h e = elim (dec_lt i n) [
    | no past ↦
        let over : n ≤ i = omega arith in
        subst R (some_inj (sym (scan_end f n step i s over) ∙ e)) (finish i s over h)
    | yes inside ↦ elim (Flow-cases (step i s)) [
      | inr (t, w) ↦
          subst R (some_inj (sym (scan-return f n step i s inside w) ∙ e))
            (rw w at (keep i s inside h))
      | inl (j, t, w) ↦
          scan_inv P R n step keep finish f j t (rw w at (keep i s inside h))
            (sym (scan-goto f n step i s inside w) ∙ e)
    ]
  ]

-- Two loops in lockstep; the left one may return first, and is then held against what the right
-- one comes to.
module _ {S T : Type 0} (P : ℕ → S → T → Type 0) (R : S → T → Type 0) where
  abbrev pub Agrees : (T → Type 0) → Flow S → Flow T → Type 0
  Agrees Comes (goto j s) (goto k t) = (j ≡ k) × P j s t
  Agrees Comes (return s) w = (v : T) → Comes v → R s v
  Agrees Comes (goto j s) (return t) = ⊥

  right_goes :
      (Comes : T → Type 0) (j : ℕ) (s : S) (w : Flow T)
      → Agrees Comes (goto j s) w
      → (t : T) × (w ≡ goto j t) × P j s t
  right_goes Comes j s (goto k t) (e, h) = (t, ap (λ m. goto m t) (sym e), h)
  right_goes Comes j s (return t) h = absurd h

  -- Loops whose steps agree end in related states.
  pub scan_sim :
      (n : ℕ) (left : ℕ → S → Flow S) (right : ℕ → T → Flow T)
      → ((i : ℕ) (s : S) (t : T)
          → i < n
          → P i s t
          → Agrees (λ v. (f : ℕ) × (scan f n right i t ≡ some v)) (left i s) (right i t))
      → ((i : ℕ) (s : S) (t : T) → n ≤ i → P i s t → R s t)
      → (f i : ℕ) (s : S) (t : T) {u : S} {v : T} → P i s t
      → scan f n left i s ≡ some u
      → scan f n right i t ≡ some v
      → R u v
  unfolding scan
  scan_sim n left right keep finish zero i s t h e d = absurd (none≢some e)
  scan_sim n left right keep finish (suc f) i s t {u} {v} h e d = elim (dec_lt i n) [
    | no past ↦
        let over : n ≤ i = omega arith in
        subst₂ R (some_inj (sym (scan_end f n left i s over) ∙ e))
          (some_inj (sym (scan_end f n right i t over) ∙ d)) (finish i s t over h)
    | yes inside ↦ elim (Flow-cases (left i s)) [
      | inr (s', w) ↦
          subst (λ x. R x v) (some_inj (sym (scan-return f n left i s inside w) ∙ e))
            ((rw w at (keep i s t inside h)) v (suc f, d))
      | inl (j, s', w) ↦
          let (t', w', h') =
            right_goes (λ x. (g : ℕ) × (scan g n right i t ≡ some x)) j s' (right i t)
              (rw w at (keep i s t inside h)) in
          scan_sim n left right keep finish f j s' t' h' (sym (scan-goto f n left i s inside w) ∙ e)
            (sym (scan-goto f n right i t inside w') ∙ d)
    ]
  ]
