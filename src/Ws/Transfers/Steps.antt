-- ===== src/Ws/Transfers/Steps.antt =====
-- internal/ws/transfer.go: the critical sections of the two goroutines, and the cancellations.
use onprest.Prelude.{
  ℕ, ◌+◌, ◌-◌, Bool, true, ◌&&◌, List, [], ◌∷◌, none, some, String, ltb, ◌==◌, if◌then◌else◌,
}
use text.Mathlib.Text.{◌==◌ as str_eq}
use onprest.Prelude.Dict.{Dict, lookup, insert}
use onprest.Protocol.Frame.{transfer_window, connection_window}
use onprest.Ws.Transfers.{
  Wire, Transfers, Item, Phase, receiving, writing, acknowledging, reserving, reading,
  sending_chunk, draining, finishing, stopping, ReadEnd, more, eof, failed,
}

-- A step of the goroutine of the transfer `id`, on its own state and the connection's count.
unfoldable pub on_wire : (Wire → ℕ → Wire × ℕ) → String → Transfers → Transfers
on_wire step id t = elim (lookup id t.live) [
  | none ↦ t
  | some w ↦
      let (w', retained) = step w t.retained in
      record t { live = insert id w' t.live; retained = retained }
]

unfoldable pub is_end : Item → Bool
is_end item = str_eq item.frame.kind "transfer_end"

-- `receive`: an item is taken from the queue.
unfoldable pub take_item : Phase → List Item → Wire → Wire
take_item receiving (x ∷ q) w = record w { queue = q; phase = writing x }
take_item _ _ w = w

unfoldable pub take : Wire → ℕ → Wire × ℕ
take w retained = (take_item w.phase w.queue w, retained)

-- `write` or `end` returns; `ok` tells that it returned no error.
unfoldable pub written_at : Bool → Phase → Wire → ℕ → Wire × ℕ
written_at ok (writing x) w retained = (
  record w { phase = if is_end x then stopping else if ok then acknowledging else stopping },
  retained,
)
written_at ok _ w retained = (w, retained)

unfoldable pub written : Bool → Wire → ℕ → Wire × ℕ
written ok w retained = written_at ok w.phase w retained

-- The function `grant` of `receive`, which runs when the `ack` is on the wire.
unfoldable pub grant_at : Phase → Wire → ℕ → Wire × ℕ
grant_at acknowledging w retained =
    (record w { acked = w.acked + 1; phase = receiving }, retained - 1)
grant_at _ w retained = (w, retained)

unfoldable pub acknowledged : Wire → ℕ → Wire × ℕ
acknowledged w retained = grant_at w.phase w retained

-- `sendReader`: a chunk is reserved, where both windows have room.
unfoldable pub reserve_at : Phase → Wire → ℕ → Wire × ℕ
reserve_at reserving w retained =
    if ltb (w.next - w.acked) transfer_window && ltb retained connection_window
    then (record w { next = w.next + 1; phase = reading }, retained + 1)
    else (w, retained)
reserve_at _ w retained = (w, retained)

unfoldable pub reserve : Wire → ℕ → Wire × ℕ
reserve w retained = reserve_at w.phase w retained

-- What follows a `Read` that gave no bytes, and what follows a chunk that was sent.
unfoldable pub after_empty : ReadEnd → Phase
after_empty more = stopping
after_empty eof = draining
after_empty failed = stopping

unfoldable pub after_chunk : ReadEnd → Phase
after_chunk more = reserving
after_chunk eof = draining
after_chunk failed = stopping

-- `reader.Read` returns `n` bytes.
unfoldable pub read_at : Phase → ℕ → ReadEnd → Wire → ℕ → Wire × ℕ
read_at reading n re w retained =
    if ltb 0 n
    then (record w { phase = sending_chunk re }, retained)
    else (record w { next = w.next - 1; phase = after_empty re }, retained - 1)
read_at _ n re w retained = (w, retained)

unfoldable pub read : ℕ → ReadEnd → Wire → ℕ → Wire × ℕ
read n re w retained = read_at w.phase n re w retained

-- The callback of the chunk's `send`, which runs when the chunk is on the wire.
unfoldable pub sent_at : Phase → Wire → ℕ → Wire × ℕ
sent_at (sending_chunk re) w retained =
    (record w { sent = w.sent + 1; phase = after_chunk re }, retained)
sent_at _ w retained = (w, retained)

unfoldable pub chunk_sent : Wire → ℕ → Wire × ℕ
chunk_sent w retained = sent_at w.phase w retained

-- The loop before the terminal frame.
unfoldable pub drain_at : Phase → Wire → ℕ → Wire × ℕ
drain_at draining w retained =
    if w.sent == w.acked then (record w { phase = finishing }, retained) else (w, retained)
drain_at _ w retained = (w, retained)

unfoldable pub drain : Wire → ℕ → Wire × ℕ
drain w retained = drain_at w.phase w retained

-- The assignment to `granted` in `receive`.
unfoldable pub set_granted : Bool → Wire → ℕ → Wire × ℕ
set_granted granted w retained = (record w { granted = granted }, retained)

-- `Cancel`.
unfoldable pub cancel : Wire → ℕ → Wire × ℕ
cancel w retained = (record w { canceled = true }, retained)

-- The loops of `CancelRequest` and `Close` over `live`.
unfoldable pub cancel_where : (Wire → Bool) → Dict Wire → Dict Wire
cancel_where test [] = []
cancel_where test ((id, w) ∷ d) =
    (id, if test w then record w { canceled = true } else w) ∷ cancel_where test d

unfoldable pub cancel_request : String → Transfers → Transfers
cancel_request id t = record t { live = cancel_where (λ w. str_eq w.request id) t.live }

unfoldable pub close : Transfers → Transfers
close t = record t { closed = true; live = cancel_where (λ w. true) t.live }
