-- ===== src/Ws/Scheduler/Fairness.antt =====
-- No transfer starves: with no control traffic, a waiting transfer has its turn in time.
use text.Mathlib.Text.{◌==◌ as str_eq}
use text.Mathlib.TextEquality.{eq_iff}
use mathlib.Core.List.{Memᴰ}
use onprest.Prelude.{
  ℕ, zero, suc, ◌+◌, ◌*◌, ◌≤◌, ◌<◌, ◌≡◌, refl, sym, ap, ◌∙◌, inl, inr, true, false, List, [], ◌∷◌,
  ◌++◌, append_assoc, append-nil, none, some, String, arith, if◌then◌else◌, length, Bool-cases,
}
use onprest.Prelude.Dict.{lookup-insert, lookup-remove}
use onprest.Ws.Scheduler.{
  Scheduler, queue, no_ids, take_transfer, next_transfer, next_normal, next_control, next,
}
use onprest.Ws.Scheduler.Invariant.{IsValid, next-IsValid, head_waits}

nonempty : {J : Type 0} (q : List J) → 0 < length q → (j : J) × (p : List J) × (q ≡ j ∷ p)
nonempty [] h = absurd (omega arith)
nonempty (j ∷ p) h = (j, p, refl)

head_is :
    {J : Type 0} (a b : List J) (x y : J) (p q : List J) → a ≡ b → a ≡ x ∷ p → b ≡ y ∷ q → y ≡ x
head_is a b x y p q e f g = cc

module _ {J E : Type 0} where
  -- The jobs that `n` calls of `next` hand out, with no post between them.
  unfoldable pub served : ℕ → Scheduler J E → List J
  served zero s = []
  served (suc n) s =
      let (s', taken) = next s in
      let later = served n s' in elim taken [ none ↦ [] | some j ↦ j ∷ later ]

  -- One call of `next` with no control job and transfer `k` first in the order.
  data Turn (s : Scheduler J E) (k : String) (ids : List String) (j : J) : Type 0 where
    normal_first :
        (n : J)
        → s.last_normal ≡ false
        → (next s).1 ≡ some n
        → (next s).0.last_normal ≡ true
        → (next s).0.control ≡ []
        → (next s).0.order ≡ s.order
        → (next s).0.transfers ≡ s.transfers
        → Turn s k ids j
    its_turn :
        (tail : List String)
        → (next s).1 ≡ some j
        → (next s).0.last_normal ≡ false
        → (next s).0.control ≡ []
        → (next s).0.order ≡ ids ++ tail
        → ((i : String) → str_eq k i ≡ false → queue i (next s).0.transfers ≡ queue i s.transfers)
        → Turn s k ids j

  take_turn :
      (s : Scheduler J E) (k : String) (ids : List String) (j : J) (q : List J)
      → s.control ≡ []
      → s.order ≡ k ∷ ids
      → next s ≡ take_transfer k ids (j ∷ q) s
      → Turn s k ids j
  unfolding take_transfer
  take_turn s k ids j [] c o e =
      its_turn [] (ap (λ r. r.1) e) (ap (λ r. r.0.last_normal) e) (ap (λ r. r.0.control) e ∙ c)
        (ap (λ r. r.0.order) e ∙ sym (append-nil ids))
        (λ i other. ap (λ r. queue i r.0.transfers) e ∙ rw (lookup-remove, other, queue))
  take_turn s k ids j (j' ∷ q) c o e =
      its_turn (k ∷ []) (ap (λ r. r.1) e) (ap (λ r. r.0.last_normal) e)
        (ap (λ r. r.0.control) e ∙ c) (ap (λ r. r.0.order) e)
        (λ i other. ap (λ r. queue i r.0.transfers) e ∙ rw (lookup-insert, other, queue))

  transfer_turn :
      (s : Scheduler J E) (k : String) (ids : List String) (j : J) (q : List J)
      → s.control ≡ []
      → s.order ≡ k ∷ ids
      → queue k s.transfers ≡ j ∷ q
      → next s ≡ next_transfer s.order s
      → Turn s k ids j
  unfolding next_transfer
  transfer_turn s k ids j q c o w e =
      take_turn s k ids j q c o
        (e ∙ ap (λ x. next_transfer x s) o ∙ ap (λ x. take_transfer k ids x s) w)

  normal_turn :
      (s : Scheduler J E) (k : String) (ids : List String) (j : J) (q normal : List J)
      → s.control ≡ []
      → s.order ≡ k ∷ ids
      → queue k s.transfers ≡ j ∷ q
      → next s ≡ next_normal normal s
      → Turn s k ids j
  unfolding next_normal no_ids
  normal_turn s k ids j q [] c o w e = transfer_turn s k ids j q c o w e
  normal_turn s k ids j q (n ∷ normal) c o w e = elim (Bool-cases s.last_normal) [
    | inl again ↦ transfer_turn s k ids j q c o w (e ∙ rw again (ground (arith, ap no_ids o)))
    | inr first ↦
        let taken : next s ≡ (record s { normal = normal; last_normal = true }, some n) =
          e ∙ rw (first, ap no_ids o) in
        normal_first n first (ap (λ r. r.1) taken) (ap (λ r. r.0.last_normal) taken)
          (ap (λ r. r.0.control) taken ∙ c) (ap (λ r. r.0.order) taken)
          (ap (λ r. r.0.transfers) taken)
  ]

  turn :
      (s : Scheduler J E) (k : String) (ids : List String) (j : J) (q : List J)
      → s.control ≡ []
      → s.order ≡ k ∷ ids
      → queue k s.transfers ≡ j ∷ q
      → Turn s k ids j
  unfolding next next_control
  turn s k ids j q c o w = normal_turn s k ids j q s.normal c o w (ap (λ x. next_control x s) c)

  served-some :
      (n : ℕ) (s : Scheduler J E) (j : J)
      → (next s).1 ≡ some j
      → served (suc n) s ≡ j ∷ served n (next s).0
  unfolding served
  served-some n s j e = rw (e, served)

  -- From a valid scheduler state with no control job, the first job of a waiting transfer is handed
  -- out within two calls of next for each transfer before it in the order and two more, one less if
  -- a normal job went last, when nothing is posted between the calls.
  pub served_soon :
      (id : String) (pre post : List String) (j : J) (q : List J) (n : ℕ) (s : Scheduler J E)
      → IsValid s
      → s.control ≡ []
      → s.order ≡ pre ++ id ∷ post
      → queue id s.transfers ≡ j ∷ q
      → 2 * length pre + (if s.last_normal then 1 else 2) ≤ n
      → Memᴰ j (served n s)
  served_soon id pre post j q zero s v c o w h = absurd (ground arith)
  served_soon id [] post j q (suc n) s v c o w h = elim (turn s id post j q c o w) [
    | normal_first x first e l c' o' t ↦ rw (served-some n s x e) (
        Memᴰ.tail (
          served_soon id [] post j q n (next s).0 (next-IsValid s v) c' (o' ∙ o)
            (ap (queue id) t ∙ w) (rw l (let h' = rw first at h in omega arith))))
    | its_turn tail e l c' o' t ↦ rw (served-some n s j e) (Memᴰ.head refl)
  ]
  served_soon id (k ∷ pre) post j q (suc n) s v c o w h =
      let (x, p, f) = nonempty (queue k s.transfers) (head_waits k (pre ++ id ∷ post) s o v).0.0 in
      elim (turn s k (pre ++ id ∷ post) x p c o f) [
        | normal_first y first e l c' o' t ↦ rw (served-some n s y e) (
            Memᴰ.tail (
              served_soon id (k ∷ pre) post j q n (next s).0 (next-IsValid s v) c' (o' ∙ o)
                (ap (queue id) t ∙ w) (rw l (let h' = rw first at h in omega arith))))
        | its_turn tail e l c' o' t ↦ rw (served-some n s x e) (elim (Bool-cases (str_eq k id)) [
          | inl same ↦ Memᴰ.head (
              head_is (queue k s.transfers) (queue id s.transfers) x j p q
                (ap (λ i. queue i s.transfers) ((eq_iff k id).0 same)) f w)
          | inr other ↦ Memᴰ.tail (
              served_soon id pre (post ++ tail) j q n (next s).0 (next-IsValid s v) c'
                (o' ∙ append_assoc pre (id ∷ post) tail) (t id other ∙ w) (ground arith))
        ])
      ]
