-- ===== src/Ws/Transfers/Window.antt =====
-- A live transfer keeps its window, and each of its steps keeps the connection's count in step with it.
use text.Mathlib.Text.{◌==◌ as str_eq}
use text.Mathlib.TextEquality.{eq_iff}
use onprest.Prelude.{
  ℕ, ◌+◌, ◌-◌, ◌≤◌, ◌<◌, ◌≡◌, refl, ap, inl, inr, Bool, true, false, not, ◌||◌, List, [], ◌∷◌, ◌++◌,
  Option, some, arith, if◌then◌else◌, length, leb, ◌==◌, Bool-cases, Option-cases,
}
use onprest.Protocol.Frame.{Frame, Base64, chunk}
use onprest.Ws.Transfers.{
  Wire, Item, Phase, receiving, writing, acknowledging, reserving, reading, sending_chunk, draining,
  finishing, stopping, ReadEnd, more, eof, failed, TransferError, protocol_violation, enqueue,
  live_chunk, live_frame,
}
use onprest.Ws.Transfers.Steps.{
  set_granted, is_end, take_item, take, written_at, written, grant_at, acknowledged, reserve_at,
  reserve, after_empty, after_chunk, read_at, read, sent_at, chunk_sent, drain_at, drain, cancel,
}

-- The chunks that wait in a queue, and the terminal frames.
unfoldable pub chunks : List Item → ℕ
chunks [] = 0
chunks (x ∷ q) = (if is_end x then 0 else 1) + chunks q

unfoldable pub ends : List Item → ℕ
ends [] = 0
ends (x ∷ q) = (if is_end x then 1 else 0) + ends q

-- The chunk that a phase holds and has not handed on.
unfoldable pub held : Phase → ℕ
held (writing x) = if is_end x then 0 else 1
held acknowledging = 1
held reading = 1
held (sending_chunk re) = 1
held _ = 0

-- What each phase says beside: `finishing` is behind the barrier, and a phase belongs to one side.
unfoldable pub Barrier : Phase → Bool → ℕ → ℕ → Type 0
Barrier finishing sending acked next = (sending ≡ true) × (acked ≡ next)
Barrier receiving sending acked next = sending ≡ false
Barrier (writing x) sending acked next = sending ≡ false
Barrier acknowledging sending acked next = sending ≡ false
Barrier stopping sending acked next = Unit
Barrier _ sending acked next = sending ≡ true

-- The counts of a sender, and those of a receiver with its queue.
abbrev pub Counted : Bool → ℕ → List Item → Bool → ℕ → ℕ → ℕ → Type 0
Counted true holding queue ending acked sent next = (acked ≤ sent) × (sent + holding ≡ next)
Counted false holding queue ending acked sent next =
    (acked + (chunks queue + holding) ≤ next) × (ends queue ≤ (if ending then 1 else 0))

abbrev pub At : Phase → Wire → Type 0
At p w =
    (w.acked ≤ w.next)
    × (w.next ≤ w.acked + 4)
    × Counted w.sending (held p) w.queue w.ending w.acked w.sent w.next
    × Barrier p w.sending w.acked w.next

abbrev pub WireIsValid : Wire → Type 0
WireIsValid w = At w.phase w

-- A step keeps a live transfer valid, with `retained` chunks on the connection before it.
abbrev pub Keeps : Wire → ℕ → Wire × ℕ → Type 0
Keeps w retained next =
    WireIsValid next.0
    × (next.1 + (w.next - w.acked) ≡ retained + (next.0.next - next.0.acked))
    × (next.1 ≤ 32)

-- No item waits beside the chunks and the terminal frame.
pub length-chunks : (q : List Item) → length q ≡ chunks q + ends q
unfolding chunks ends
length-chunks [] = omega arith
length-chunks (x ∷ q) = ground (arith, length-chunks q)

chunks-append :
    (q : List Item) (x : Item) → chunks (q ++ x ∷ []) ≡ chunks q + (if is_end x then 0 else 1)
unfolding chunks
chunks-append [] x = ground arith
chunks-append (y ∷ q) x = ground (arith, chunks-append q x)

ends-append : (q : List Item) (x : Item) → ends (q ++ x ∷ []) ≡ ends q + (if is_end x then 1 else 0)
unfolding ends
ends-append [] x = ground arith
ends-append (y ∷ q) x = ground (arith, ends-append q x)

module _ (w : Wire) (retained : ℕ) (v : WireIsValid w) (own : w.next - w.acked ≤ retained)
    (fits : retained ≤ 32) where
  same : Keeps w retained (w, retained)
  same = (v, refl, fits)

  reserve_at-Keeps : (p : Phase) → At p w → Keeps w retained (reserve_at p w retained)
  unfolding reserve_at held Barrier
  reserve_at-Keeps reserving h = ground arith
  reserve_at-Keeps _ h = same

  take_item-Keeps :
      (p : Phase) (q : List Item)
      → w.queue ≡ q
      → At p w
      → Keeps w retained (take_item p q w, retained)
  unfolding take_item held Barrier chunks ends
  take_item-Keeps receiving (x ∷ q) e h = ground (arith, ap chunks e, ap ends e)
  take_item-Keeps _ _ e h = same

  written_at-Keeps :
      (ok : Bool) (p : Phase) → At p w → Keeps w retained (written_at ok p w retained)
  unfolding written_at held Barrier
  written_at-Keeps ok (writing x) h = ground arith
  written_at-Keeps ok _ h = same

  grant_at-Keeps : (p : Phase) → At p w → Keeps w retained (grant_at p w retained)
  unfolding grant_at held Barrier
  grant_at-Keeps acknowledging h = ground arith
  grant_at-Keeps _ h = same

  read_at-Keeps :
      (p : Phase) (n : ℕ) (re : ReadEnd) → At p w → Keeps w retained (read_at p n re w retained)
  unfolding read_at held Barrier after_empty
  read_at-Keeps reading n more h = ground arith
  read_at-Keeps reading n eof h = ground arith
  read_at-Keeps reading n failed h = ground arith
  read_at-Keeps _ n re h = same

  sent_at-Keeps : (p : Phase) → At p w → Keeps w retained (sent_at p w retained)
  unfolding sent_at held Barrier after_chunk
  sent_at-Keeps (sending_chunk more) h = ground arith
  sent_at-Keeps (sending_chunk eof) h = ground arith
  sent_at-Keeps (sending_chunk failed) h = ground arith
  sent_at-Keeps _ h = same

  drain_at-Keeps : (p : Phase) → At p w → Keeps w retained (drain_at p w retained)
  unfolding drain_at held Barrier
  drain_at-Keeps draining h = ground arith
  drain_at-Keeps _ h = same

  pub cancel-Keeps : Keeps w retained (cancel w retained)
  unfolding cancel
  cancel-Keeps = (v, refl, fits)

  pub set_granted-Keeps : (granted : Bool) → Keeps w retained (set_granted granted w retained)
  unfolding set_granted
  set_granted-Keeps granted = (v, refl, fits)

  pub grant-Keeps : Keeps w retained (record w { granted = true }, retained)
  grant-Keeps = (v, refl, fits)

  pub take-Keeps : Keeps w retained (take w retained)
  unfolding take
  take-Keeps = take_item-Keeps w.phase w.queue refl v

  pub written-Keeps : (ok : Bool) → Keeps w retained (written ok w retained)
  unfolding written
  written-Keeps ok = written_at-Keeps ok w.phase v

  pub acknowledged-Keeps : Keeps w retained (acknowledged w retained)
  unfolding acknowledged
  acknowledged-Keeps = grant_at-Keeps w.phase v

  pub reserve-Keeps : Keeps w retained (reserve w retained)
  unfolding reserve
  reserve-Keeps = reserve_at-Keeps w.phase v

  pub read-Keeps : (n : ℕ) (re : ReadEnd) → Keeps w retained (read n re w retained)
  unfolding read
  read-Keeps n re = read_at-Keeps w.phase n re v

  pub chunk_sent-Keeps : Keeps w retained (chunk_sent w retained)
  unfolding chunk_sent
  chunk_sent-Keeps = sent_at-Keeps w.phase v

  pub drain-Keeps : Keeps w retained (drain w retained)
  unfolding drain
  drain-Keeps = drain_at-Keeps w.phase v

-- The part of the result that the state gets.
abbrev pub state_of : {E : Type 0} → Wire × ℕ × Option (TransferError E) → Wire × ℕ
state_of (w, retained, error) = (w, retained)

Barrier-receiver :
    (p : Phase) (sending : Bool) (acked next next' : ℕ)
    → sending ≡ false
    → Barrier p sending acked next
    → Barrier p sending acked next'
unfolding Barrier
Barrier-receiver finishing sending acked next next' e b = ground arith
Barrier-receiver receiving sending acked next next' e b = b
Barrier-receiver (writing x) sending acked next next' e b = b
Barrier-receiver acknowledging sending acked next next' e b = b
Barrier-receiver reserving sending acked next next' e b = b
Barrier-receiver reading sending acked next next' e b = b
Barrier-receiver (sending_chunk re) sending acked next next' e b = b
Barrier-receiver draining sending acked next next' e b = b
Barrier-receiver stopping sending acked next next' e b = b

Barrier-ack :
    (p : Phase) (sending : Bool) (acked next : ℕ)
    → acked < next
    → Barrier p sending acked next
    → Barrier p sending (acked + 1) next
unfolding Barrier
Barrier-ack finishing sending acked next less b = absurd (omega arith)
Barrier-ack receiving sending acked next less b = b
Barrier-ack (writing x) sending acked next less b = b
Barrier-ack acknowledging sending acked next less b = b
Barrier-ack reserving sending acked next less b = b
Barrier-ack reading sending acked next less b = b
Barrier-ack (sending_chunk re) sending acked next less b = b
Barrier-ack draining sending acked next less b = b
Barrier-ack stopping sending acked next less b = b

module _ (E : Type 0) (base64 : Base64) (f : Frame) (w : Wire) (retained : ℕ) (v : WireIsValid w)
    (own : w.next - w.acked ≤ retained) (fits : retained ≤ 32) where
  chunk_item-Keeps :
      (item : Item)
      → is_end item ≡ false
      → w.sending ≡ false
      → w.ending ≡ false
      → w.next - w.acked < 4
      → retained < 32
      → Keeps w retained
          (state_of (enqueue {E = E} item (record w { next = w.next + 1 }) (retained + 1)))
  unfolding enqueue
  chunk_item-Keeps item kind receiver going room below = ground (
    arith,
    Barrier-receiver w.phase w.sending w.acked w.next (w.next + 1),
    chunks-append w.queue item,
    ends-append w.queue item,
    length-chunks w.queue,
  )

  end_item-Keeps :
      (item : Item)
      → is_end item ≡ true
      → w.sending ≡ false
      → w.ending ≡ false
      → Keeps w retained (state_of (enqueue {E = E} item (record w { ending = true }) retained))
  unfolding enqueue
  end_item-Keeps item kind receiver going =
      ground (arith, chunks-append w.queue item, ends-append w.queue item, length-chunks w.queue)

  live_chunk-Keeps :
      str_eq f.kind "transfer_end" ≡ false
      → w.sending ≡ false
      → w.ending ≡ false
      → Keeps w retained (state_of (live_chunk {E = E} base64 f w retained))
  unfolding live_chunk is_end
  live_chunk-Keeps kind receiver going = elim (Option-cases (chunk base64 f)) [
    | inl bad ↦ rw bad (ground arith)
    | inr (b, e) ↦ rw e (ground (arith, chunk_item-Keeps (record { frame = f; body = b })))
  ]

  data_frame-Keeps :
      w.sending ≡ false
      → w.ending ≡ false
      → Keeps w retained (
          state_of {E = E} (
            if str_eq f.kind "transfer_chunk"
            then live_chunk base64 f w retained
            else if str_eq f.kind "transfer_end"
            then enqueue (record { frame = f; body = [] }) (record w { ending = true }) retained
            else (w, retained, some protocol_violation)))
  unfolding is_end
  data_frame-Keeps receiver going = elim (Bool-cases (str_eq f.kind "transfer_chunk")) [
    | inl c ↦ rw c (live_chunk-Keeps (rw ((eq_iff f.kind "transfer_chunk").0 c)) receiver going)
    | inr c ↦ elim (Bool-cases (str_eq f.kind "transfer_end")) [
      | inl e ↦ rw (c, e) (end_item-Keeps (record { frame = f; body = [] }) e receiver going)
      | inr e ↦ rw (c, e) (v, refl, fits)
    ]
  ]

  ack-Keeps :
      w.sending ≡ true
      → w.acked < w.sent
      → Keeps w retained (record w { acked = w.acked + 1 }, retained - 1)
  ack-Keeps sender less = ground (arith, Barrier-ack w.phase w.sending w.acked w.next)

  pub live_frame-Keeps : Keeps w retained (state_of (live_frame {E = E} base64 f w retained))
  unfolding live_frame
  live_frame-Keeps = elim (Bool-cases (str_eq f.kind "ack")) [
    | inl a ↦
        elim (Bool-cases (not w.sending || (not (f.sequence == w.acked) || leb w.sent w.acked))) [
          | inl refused ↦ rw (a, refused) (v, refl, fits)
          | inr ok ↦ rw (a, ok) (ground (arith, ack-Keeps))
        ]
    | inr a ↦ elim (Bool-cases (str_eq f.id w.request)) [
      | inr r ↦ rw (a, r) (v, refl, fits)
      | inl r ↦ elim (Bool-cases (str_eq f.kind "transfer_cancel")) [
        | inl c ↦ rw (a, r, c) (v, refl, fits)
        | inr c ↦ elim (Bool-cases (w.sending || (w.ending || not w.granted))) [
          | inl u ↦ rw (a, r, c, u) (v, refl, fits)
          | inr u ↦ rw (a, r, c, u) (data_frame-Keeps (ground arith) (ground arith))
        ]
      ]
    ]
  ]
