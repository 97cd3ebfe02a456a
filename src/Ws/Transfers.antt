-- ===== src/Ws/Transfers.antt =====
-- internal/ws/transfer.go. Each operation is a critical section under `mu`. A time is a natural number
-- of nanoseconds, an error any type `E`. A goroutine's place in its loop is the phase of its transfer;
-- a context is the flag that its `cancel` sets, with what its parents say as an argument. The channels
-- that only wake or only report (`notify`, `done`, `stopped`) and the wait group are left out, and
-- Go's signed differences are written on ℕ: `Ws.Transfers.Window` shows that none is negative.
pub mod Invariant
pub mod Steps
pub mod Window
pub mod Reachable
pub mod Open
use text.Mathlib.Text.{◌==◌ as str_eq}
use onprest.Prelude.{
  ℕ, zero, suc, ◌+◌, ◌-◌, Bool, true, false, not, ◌&&◌, ◌||◌, List, [], ◌∷◌, ◌++◌, Option, none,
  some, String, Bytes, ltb, leb, ◌==◌, if◌then◌else◌, length,
}
use onprest.Prelude.Dict.{Dict, lookup, insert, remove, size}
use onprest.Protocol.Frame.{Frame, Base64, chunk, valid_id, transfer_window, connection_window}

pub record Retired : Type 0 where
  pub expiry : ℕ
  pub request : String
  pub sending : Bool
  pub canceled : Bool
  pub ending : Bool
  pub next : ℕ
  pub acked : ℕ
  pub sent : ℕ

pub record Item : Type 0 where
  pub frame : Frame
  pub body : Bytes

-- What `reader.Read` says beside the bytes: nothing, `io.EOF` or another error.
pub data ReadEnd : Type 0 where
  more eof failed : ReadEnd

pub data Phase : Type 0 where
  -- The receiving goroutine: at its select, with an item, and sending the item's `ack`.
  receiving : Phase
  writing : Item → Phase
  acknowledging : Phase
  -- The sending goroutine: reserving a chunk, in `Read`, sending the chunk that it read, waiting for
  -- the acknowledgements, sending `transfer_end`, and about to return.
  reserving reading : Phase
  sending_chunk : ReadEnd → Phase
  draining finishing stopping : Phase

pub record Wire : Type 0 where
  pub request : String
  pub sending : Bool
  pub canceled : Bool
  pub queue : List Item
  pub next : ℕ
  pub acked : ℕ
  pub sent : ℕ
  pub ending : Bool
  pub granted : Bool
  pub expiry : ℕ
  pub phase : Phase

pub record Transfers : Type 0 where
  pub live : Dict Wire
  pub recent : Dict Retired
  pub retained : ℕ
  pub closed : Bool

pub data TransferError (E : Type 0) : Type 0 where
  protocol_violation not_found capacity_unavailable canceled_context : TransferError E
  context_ended : E → TransferError E

abbrev pub new_transfers : Transfers
new_transfers = record { live = []; recent = []; retained = 0; closed = false }

abbrev pub is_some : {A : Type 0} → Option A → Bool
is_some none = false
is_some (some a) = true

-- The loop of `add` over `recent`.
unfoldable pub forget : ℕ → Dict Retired → Dict Retired
forget now [] = []
forget now ((id, r) ∷ d) =
    let rest = forget now d in if not (ltb now r.expiry) then rest else (id, r) ∷ rest

abbrev pub new_wire : String → Bool → ℕ → Wire
new_wire request sending deadline = record {
  request = request;
  sending = sending;
  canceled = false;
  queue = [];
  next = 0;
  acked = 0;
  sent = 0;
  ending = false;
  granted = false;
  expiry = deadline;
  phase = if sending then reserving else receiving;
}

-- What `add` does once it has dropped what expired.
unfoldable pub admit :
    {E : Type 0}
    → (Bytes → Bool)
    → Option ℕ
    → String
    → String
    → Bool
    → Transfers
    → Transfers × Option (TransferError E)
admit valid_string deadline request id sending t =
    if leb 8 (size t.live) || leb 4096 (size t.live + size t.recent)
    then (t, some capacity_unavailable)
    else if not (valid_id valid_string request)
        || (not (valid_id valid_string id)
            || (is_some (lookup id t.live) || is_some (lookup id t.recent)))
    then (t, some protocol_violation)
    else elim deadline [
      | none ↦ (t, some protocol_violation)
      | some at ↦ (record t { live = insert id (new_wire request sending at) t.live }, none)
    ]

-- `add`; the ends of the two contexts are `ctx.Err()` and `t.ctx.Err()`.
unfoldable pub add :
    {E : Type 0}
    → (Bytes → Bool)
    → ℕ
    → Option E
    → Option E
    → Option ℕ
    → String
    → String
    → Bool
    → Transfers
    → Transfers × Option (TransferError E)
add valid_string now ended connection_ended deadline request id sending t =
    if t.closed then (t, some canceled_context) else elim ended [
      | some e ↦ (t, some (context_ended e))
      | none ↦ elim connection_ended [
        | some e ↦ (t, some (context_ended e))
        | none ↦
            admit valid_string deadline request id sending
              (record t { recent = forget now t.recent })
      ]
    ]

abbrev pub retired : Bool → Wire → Retired
retired canceled w = record {
  expiry = w.expiry + 5000000000;
  request = w.request;
  sending = w.sending;
  canceled = canceled;
  ending = w.ending;
  next = w.next;
  acked = w.acked;
  sent = w.sent;
}

-- `retire`, for the transfer that `id` stands for; `failing` tells whether there is an error or the
-- context's parents have ended.
unfoldable pub retire : Bool → String → Transfers → Transfers
retire failing id t = elim (lookup id t.live) [
  | none ↦ t
  | some w ↦ record t {
    live = remove id t.live;
    recent = insert id (retired (failing || w.canceled) w) t.recent;
    retained = t.retained - (w.next - w.acked);
  }
]

-- `Grant`.
unfoldable pub grant : {E : Type 0} → String → Transfers → Transfers × Option (TransferError E)
grant id t = elim (lookup id t.live) [
  | none ↦ (t, some protocol_violation)
  | some w ↦
      if w.sending || w.granted
      then (t, some protocol_violation)
      else (record t { live = insert id (record w { granted = true }) t.live }, none)
]

-- The frame `f` for the live transfer `w`, with `retained` chunks on the connection.
unfoldable pub enqueue : {E : Type 0} → Item → Wire → ℕ → Wire × ℕ × Option (TransferError E)
enqueue item w retained =
    if ltb (length w.queue) 5
    then (record w { queue = w.queue ++ item ∷ [] }, retained, none)
    else (w, retained, some protocol_violation)

unfoldable pub live_chunk :
    {E : Type 0} → Base64 → Frame → Wire → ℕ → Wire × ℕ × Option (TransferError E)
live_chunk base64 f w retained =
    if not (f.sequence == w.next)
      || (leb transfer_window (w.next - w.acked) || leb connection_window retained)
    then (w, retained, some protocol_violation)
    else elim (chunk base64 f) [
      | none ↦ (w, retained, some protocol_violation)
      | some b ↦
          enqueue (record { frame = f; body = b }) (record w { next = w.next + 1 }) (retained + 1)
    ]

unfoldable pub live_frame :
    {E : Type 0} → Base64 → Frame → Wire → ℕ → Wire × ℕ × Option (TransferError E)
live_frame base64 f w retained =
    if str_eq f.kind "ack"
    then if not w.sending || (not (f.sequence == w.acked) || leb w.sent w.acked)
      then (w, retained, some protocol_violation)
      else (record w { acked = w.acked + 1 }, retained - 1, none)
    else if not (str_eq f.id w.request)
    then (w, retained, some protocol_violation)
    else if str_eq f.kind "transfer_cancel"
    then (record w { canceled = true }, retained, none)
    else if w.sending || (w.ending || not w.granted)
    then (w, retained, some protocol_violation)
    else if str_eq f.kind "transfer_chunk"
    then live_chunk base64 f w retained
    else if str_eq f.kind "transfer_end"
    then enqueue (record { frame = f; body = [] }) (record w { ending = true }) retained
    else (w, retained, some protocol_violation)

-- The frame `f` for a transfer that is not live, with what `recent` holds of it.
unfoldable pub missing : {E : Type 0} → Frame → TransferError E
missing f = if str_eq f.kind "transfer_cancel" then not_found else protocol_violation

unfoldable pub late_frame : {E : Type 0} → Frame → Retired → Retired × Option (TransferError E)
late_frame f r =
    if str_eq f.kind "ack" && (r.sending && (f.sequence == r.acked && ltb r.acked r.sent))
    then (record r { acked = r.acked + 1 }, none)
    else if not (str_eq f.id r.request)
    then (r, some protocol_violation)
    else if str_eq f.kind "transfer_cancel"
    then (r, none)
    else if r.sending || r.ending
    then (r, some (missing f))
    else if str_eq f.kind "transfer_chunk"
        && (f.sequence == r.next && ltb (r.next - r.acked) transfer_window)
    then (record r { next = r.next + 1 }, none)
    else if str_eq f.kind "transfer_end"
    then (record r { ending = true }, none)
    else (r, some (missing f))

unfoldable pub handle_late :
    {E : Type 0} → ℕ → Frame → Transfers → Transfers × Option (TransferError E)
handle_late now f t = elim (lookup f.transfer_id t.recent) [
  | none ↦ (t, some (missing f))
  | some r ↦
      if r.canceled && ltb now r.expiry
      then (let (r', error) = late_frame f r in
          (record t { recent = insert f.transfer_id r' t.recent }, error))
      else (t, some (missing f))
]

-- `Handle`.
unfoldable pub handle :
    {E : Type 0} → Base64 → ℕ → Frame → Transfers → Transfers × Option (TransferError E)
handle base64 now f t = elim (lookup f.transfer_id t.live) [
  | none ↦ handle_late now f t
  | some w ↦
      let (w', retained, error) = live_frame base64 f w t.retained in
      (record t { live = insert f.transfer_id w' t.live; retained = retained }, error)
]
