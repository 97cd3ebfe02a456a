-- ===== src/Ws/Transfers/Reachable.antt =====
-- The transfers of a connection in every state that its operations reach, in any order.
use onprest.Prelude.{
  ℕ, ◌+◌, ◌≤◌, ◌≡◌, subst, Bool, true, false, Option, some, String, Bytes, arith, length,
}
use onprest.Prelude.Dict.{lookup, All-lookup}
use onprest.Protocol.Frame.{Frame, Base64}
use onprest.Ws.Transfers.{
  Wire, Transfers, ReadEnd, finishing, new_transfers, add, retire, grant, handle,
}
use onprest.Ws.Transfers.Steps.{
  set_granted, on_wire, take, written, acknowledged, reserve, read, chunk_sent, drain, cancel,
  cancel_request, close,
}
use onprest.Ws.Transfers.Window.{
  set_granted-Keeps, WireIsValid, At, Barrier, held, length-chunks, take-Keeps, written-Keeps,
  acknowledged-Keeps, reserve-Keeps, read-Keeps, chunk_sent-Keeps, drain-Keeps, cancel-Keeps,
}
use onprest.Ws.Transfers.Invariant.{
  IsValid, new_transfers-IsValid, add-IsValid, grant-IsValid, handle-IsValid, retire-IsValid,
  on_wire-IsValid, cancel_where-IsValid,
}

module _ (E : Type 0) (valid_string : Bytes → Bool) (base64 : Base64) where
  -- One critical section, of a caller, of the connection's reader or of a transfer's goroutine.
  pub data Step (t : Transfers) : Transfers → Type 0 where
    added :
        (now : ℕ) (ended connection_ended : Option E) (deadline : Option ℕ) (request id : String)
        (sending : Bool)
        → Step t (add valid_string now ended connection_ended deadline request id sending t).0
    was_granted : (id : String) → Step t (grant {E = E} id t).0
    handled : (now : ℕ) (f : Frame) → Step t (handle {E = E} base64 now f t).0
    was_retired : (failing : Bool) (id : String) → Step t (retire failing id t)
    took : (id : String) → Step t (on_wire take id t)
    wrote : (ok : Bool) (id : String) → Step t (on_wire (written ok) id t)
    was_acknowledged : (id : String) → Step t (on_wire acknowledged id t)
    reserved : (id : String) → Step t (on_wire reserve id t)
    was_read : (n : ℕ) (re : ReadEnd) (id : String) → Step t (on_wire (read n re) id t)
    was_sent : (id : String) → Step t (on_wire chunk_sent id t)
    drained : (id : String) → Step t (on_wire drain id t)
    was_canceled : (id : String) → Step t (on_wire cancel id t)
    granted_first : (granted : Bool) (id : String) → Step t (on_wire (set_granted granted) id t)
    request_canceled : (id : String) → Step t (cancel_request id t)
    was_closed : Step t (close t)

  pub data Reachable : Transfers → Type 0 where
    start : Reachable new_transfers
    after : {t u : Transfers} → Reachable t → Step t u → Reachable u

  pub Step-IsValid : {t u : Transfers} → Step t u → IsValid t → IsValid u
  unfolding cancel_request close
  Step-IsValid {t} (added now ended connection_ended deadline request id sending) v =
      add-IsValid E valid_string now ended connection_ended deadline request id sending t v
  Step-IsValid {t} (was_granted id) v = grant-IsValid E id t v
  Step-IsValid {t} (handled now f) v = handle-IsValid E base64 now f t v
  Step-IsValid {t} (was_retired failing id) v = retire-IsValid failing id t v
  Step-IsValid {t} (took id) v = on_wire-IsValid take id t take-Keeps v
  Step-IsValid {t} (wrote ok id) v =
      on_wire-IsValid (written ok) id t (λ w r h o l. written-Keeps w r h o l ok) v
  Step-IsValid {t} (was_acknowledged id) v = on_wire-IsValid acknowledged id t acknowledged-Keeps v
  Step-IsValid {t} (reserved id) v = on_wire-IsValid reserve id t reserve-Keeps v
  Step-IsValid {t} (was_read n re id) v =
      on_wire-IsValid (read n re) id t (λ w r h o l. read-Keeps w r h o l n re) v
  Step-IsValid {t} (was_sent id) v = on_wire-IsValid chunk_sent id t chunk_sent-Keeps v
  Step-IsValid {t} (drained id) v = on_wire-IsValid drain id t drain-Keeps v
  Step-IsValid {t} (was_canceled id) v = on_wire-IsValid cancel id t cancel-Keeps v
  Step-IsValid {t} (granted_first granted id) v =
      on_wire-IsValid (set_granted granted) id t (λ w r h o l. set_granted-Keeps w r h o l granted)
        v
  Step-IsValid {t} (request_canceled id) v = cancel_where-IsValid _ t.closed t v
  Step-IsValid {t} was_closed v = cancel_where-IsValid _ true t v

  -- In every state that the operations of a connection's transfers reach, in any order, the
  -- connection retains at most 32 chunks, exactly those of its live transfers that are not
  -- acknowledged, and has at most 8 live transfers and at most 4096 with the retired ones; each
  -- live transfer keeps its window and its counts.
  pub Reachable-IsValid : {t : Transfers} → Reachable t → IsValid t
  Reachable-IsValid start = new_transfers-IsValid
  Reachable-IsValid (after r s) = Step-IsValid s (Reachable-IsValid r)

  wire :
      {t : Transfers}
      → Reachable t
      → (id : String) (w : Wire) → lookup id t.live ≡ some w
      → WireIsValid w
  wire {t} r id w e = All-lookup WireIsValid id w t.live (Reachable-IsValid r).windows e

  -- In every reachable state a live transfer that receives has at most four chunks that are not
  -- acknowledged, and its queue holds at most five items, the queue's capacity.
  pub transfer_window_holds :
      {t : Transfers} (id : String) (w : Wire)
      → Reachable t
      → lookup id t.live ≡ some w
      → w.sending ≡ false
      → (w.acked ≤ w.next) × (w.next ≤ w.acked + 4) × (length w.queue ≤ 5)
  transfer_window_holds id w r e receiver =
      let h = wire r id w e in (h.0, h.1, ground (arith, length-chunks w.queue, h))

  -- In every reachable state a live transfer that sends its terminal frame has sent every chunk
  -- that it reserved and has had each of them acknowledged.
  pub end_is_barrier :
      {t : Transfers} (id : String) (w : Wire)
      → Reachable t
      → lookup id t.live ≡ some w
      → w.phase ≡ finishing
      → (w.acked ≡ w.next) × (w.sent ≡ w.next)
  unfolding Barrier held
  end_is_barrier id w r e p =
      let h : At finishing w = subst (λ q. At q w) p (wire r id w e) in ground (arith, h)
