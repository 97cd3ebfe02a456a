-- ===== src/Prelude/Dict.antt =====
-- A Go map with string keys, as an association list: a read, a write and a `delete`, their laws, and
-- what sums and predicates over the values become.
use text.Mathlib.Text.{◌==◌ as str_eq}
use text.Mathlib.TextEquality.{eq_iff}
use text.Mathlib.TextPositions.{eq_refl}
use Prim.Native.Nat.{ℕ, suc, ◌+◌, ◌≤◌}
use Prim.Native.String.{String}
use mathlib.Core.Path.{◌≡◌, refl, subst}
use mathlib.Core.Logic.{inl, inr}
use mathlib.Core.Option.{Option, none, some}
use mathlib.Core.List.{List, [], ◌∷◌}
use native.Mathlib.Omega.{arith}
use onprest.Prelude.Tests.{if◌then◌else◌, Bool-cases, some_inj, none≢some}

abbrev pub Dict : Type 0 → Type 0
Dict V = List (String × V)

module _ {V : Type 0} where
  unfoldable pub lookup : String → Dict V → Option V
  lookup k [] = none
  lookup k ((j, v) ∷ d) = if str_eq j k then some v else lookup k d

  unfoldable pub insert : String → V → Dict V → Dict V
  insert k v [] = (k, v) ∷ []
  insert k v ((j, w) ∷ d) = if str_eq j k then (k, v) ∷ d else (j, w) ∷ insert k v d

  unfoldable pub remove : String → Dict V → Dict V
  remove k [] = []
  remove k ((j, w) ∷ d) = let rest = remove k d in if str_eq j k then rest else (j, w) ∷ rest

  -- The number of keys, where they are distinct.
  unfoldable pub size : Dict V → ℕ
  size [] = 0
  size (_ ∷ d) = suc (size d)

  unfoldable pub sum : (V → ℕ) → Dict V → ℕ
  sum f [] = 0
  sum f ((j, v) ∷ d) = f v + sum f d

  abbrev pub Distinct : Dict V → Type 0
  Distinct [] = Unit
  Distinct ((j, v) ∷ d) = (lookup j d ≡ none) × Distinct d

  abbrev pub All : (V → Type 0) → Dict V → Type 0
  All P [] = Unit
  All P ((j, v) ∷ d) = P v × All P d

  pub lookup-insert :
      (k j : String) (v : V) (d : Dict V)
      → lookup j (insert k v d) ≡ (if str_eq k j then some v else lookup j d)
  unfolding lookup insert
  lookup-insert k j v [] = refl
  lookup-insert k j v ((i, w) ∷ d) =
      ground (arith, eq_iff k j, eq_iff i k, eq_iff i j, lookup-insert k j v d)

  pub lookup-remove :
      (k j : String) (d : Dict V)
      → lookup j (remove k d) ≡ (if str_eq k j then none else lookup j d)
  unfolding lookup remove
  lookup-remove k j [] = ground arith
  lookup-remove k j ((i, w) ∷ d) =
      ground (arith, eq_iff k j, eq_iff i k, eq_iff i j, lookup-remove k j d)

  pub lookup-insert_self : (k : String) (v : V) (d : Dict V) → lookup k (insert k v d) ≡ some v
  lookup-insert_self k v d = simp (lookup-insert, eq_refl)

  pub insert-Distinct : (k : String) (v : V) (d : Dict V) → Distinct d → Distinct (insert k v d)
  unfolding lookup insert
  insert-Distinct k v [] h = (refl, tt)
  insert-Distinct k v ((i, w) ∷ d) h =
      ground (arith, eq_iff i k, lookup-insert k i v d, insert-Distinct k v d, eq_iff k i)

  pub remove-Distinct : (k : String) (d : Dict V) → Distinct d → Distinct (remove k d)
  unfolding lookup remove
  remove-Distinct k [] h = tt
  remove-Distinct k ((i, w) ∷ d) h = ground (arith, lookup-remove k i d, remove-Distinct k d)

  pub remove_absent : (k : String) (d : Dict V) → lookup k d ≡ none → remove k d ≡ d
  unfolding lookup remove
  remove_absent k [] e = refl
  remove_absent k ((i, w) ∷ d) e = ground (arith, remove_absent k d)

  pub remove-insert_new :
      (k : String) (v : V) (d : Dict V) → lookup k d ≡ none → remove k (insert k v d) ≡ d
  unfolding lookup insert remove
  remove-insert_new k v [] e = rw (eq_refl k) refl
  remove-insert_new k v ((i, w) ∷ d) e = ground (arith, remove-insert_new k v d)

  pub sum-insert_new :
      (f : V → ℕ) (k : String) (v : V) (d : Dict V)
      → lookup k d ≡ none
      → sum f (insert k v d) ≡ sum f d + f v
  unfolding lookup insert sum
  sum-insert_new f k v [] e = omega arith
  sum-insert_new f k v ((i, w) ∷ d) e = ground (arith, sum-insert_new f k v d)

  pub sum-insert_old :
      (f : V → ℕ) (k : String) (v w : V) (d : Dict V)
      → lookup k d ≡ some w
      → sum f (insert k v d) + f w ≡ sum f d + f v
  unfolding lookup insert sum
  sum-insert_old f k v w [] e = ground arith
  sum-insert_old f k v w ((i, u) ∷ d) e = ground (arith, sum-insert_old f k v w d)

  pub sum-insert-le :
      (f : V → ℕ) (k : String) (v : V) (d : Dict V) → sum f (insert k v d) ≤ sum f d + f v
  unfolding insert sum
  sum-insert-le f k v [] = omega arith
  sum-insert-le f k v ((i, w) ∷ d) = ground (arith, sum-insert-le f k v d)

  pub sum-lookup-le :
      (f : V → ℕ) (k : String) (v : V) (d : Dict V) → lookup k d ≡ some v → f v ≤ sum f d
  unfolding lookup sum
  sum-lookup-le f k v [] e = ground arith
  sum-lookup-le f k v ((i, u) ∷ d) e = ground (arith, sum-lookup-le f k v d)

  pub sum-remove :
      (f : V → ℕ) (k : String) (w : V) (d : Dict V)
      → Distinct d
      → lookup k d ≡ some w
      → sum f (remove k d) + f w ≡ sum f d
  unfolding lookup remove sum
  sum-remove f k w [] h e = ground arith
  sum-remove f k w ((i, u) ∷ d) h e =
      ground (arith, eq_iff i k, remove_absent k d, sum-remove f k w d)

  pub size-insert_new :
      (k : String) (v : V) (d : Dict V) → lookup k d ≡ none → size (insert k v d) ≡ size d + 1
  unfolding lookup insert size
  size-insert_new k v [] e = omega arith
  size-insert_new k v ((i, w) ∷ d) e = ground (arith, size-insert_new k v d)

  pub size-insert_old :
      (k : String) (v w : V) (d : Dict V) → lookup k d ≡ some w → size (insert k v d) ≡ size d
  unfolding lookup insert size
  size-insert_old k v w [] e = ground arith
  size-insert_old k v w ((i, u) ∷ d) e = ground (arith, size-insert_old k v w d)

  pub size-insert-le : (k : String) (v : V) (d : Dict V) → size (insert k v d) ≤ size d + 1
  unfolding insert size
  size-insert-le k v [] = omega arith
  size-insert-le k v ((i, u) ∷ d) = ground (arith, size-insert-le k v d)

  pub size-remove-le : (k : String) (d : Dict V) → size (remove k d) ≤ size d
  unfolding remove size
  size-remove-le k [] = omega arith
  size-remove-le k ((i, u) ∷ d) = ground (arith, size-remove-le k d)

  pub size-remove :
      (k : String) (w : V) (d : Dict V) → lookup k d ≡ some w → size (remove k d) + 1 ≤ size d
  unfolding lookup remove size
  size-remove k w [] e = ground arith
  size-remove k w ((i, u) ∷ d) e = ground (arith, size-remove k w d, size-remove-le k d)

  pub All-lookup :
      (P : V → Type 0) (k : String) (v : V) (d : Dict V) → All P d → lookup k d ≡ some v → P v
  unfolding lookup
  All-lookup P k v [] h e = absurd (none≢some e)
  All-lookup P k v ((i, w) ∷ d) h e = elim (Bool-cases (str_eq i k)) [
    | inl same ↦ subst P (some_inj (rw (same, lookup) at e)) h.0
    | inr other ↦ All-lookup P k v d h.1 (rw (other, lookup) at e)
  ]

  pub All-insert :
      (P : V → Type 0) (k : String) (v : V) (d : Dict V) → All P d → P v → All P (insert k v d)
  unfolding insert
  All-insert P k v [] h p = (p, tt)
  All-insert P k v ((i, w) ∷ d) h p = elim (Bool-cases (str_eq i k)) [
    | inl same ↦ rw same (p, h.1)
    | inr other ↦ rw other (h.0, All-insert P k v d h.1 p)
  ]

  pub All-remove : (P : V → Type 0) (k : String) (d : Dict V) → All P d → All P (remove k d)
  unfolding remove
  All-remove P k [] h = tt
  All-remove P k ((i, w) ∷ d) h = elim (Bool-cases (str_eq i k)) [
    | inl same ↦ rw same (All-remove P k d h.1)
    | inr other ↦ rw other (h.0, All-remove P k d h.1)
  ]
