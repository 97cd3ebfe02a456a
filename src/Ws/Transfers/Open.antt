-- ===== src/Ws/Transfers/Open.antt =====
-- internal/ws/transfer.go: the calls that begin a transfer, `receive`, `Send` and `SendOpen`, up to the
-- start of their goroutine.
use onprest.Prelude.{
  ℕ, ◌≡◌, refl, arith, not, ◌||◌, ◌+◌, leb, Bool-cases, Bool, true, false, Option, none, some,
  String, Bytes, inl, inr,
}
use onprest.Protocol.Frame.{valid_id}
use onprest.Prelude.Dict.{lookup, insert, size, remove-insert_new, lookup-insert_self}
use onprest.Ws.Transfers.{
  Transfers, TransferError, context_ended, is_some, new_wire, forget, protocol_violation, admit,
  add, retire,
}
use onprest.Ws.Transfers.Steps.{on_wire, set_granted}

module _ {E : Type 0} (valid_string : Bytes → Bool) (now : ℕ) (ended connection_ended : Option E)
    (deadline : Option ℕ) (request id : String) where
  -- `receive`; `Receive` grants at once, `ReceiveReserved` and `ReceiveReservedDone` do not.
  unfoldable pub receive : Bool → Transfers → Transfers × Option (TransferError E)
  receive granted t =
      let (t', error) = add valid_string now ended connection_ended deadline request id false t in
      elim error [ some e ↦ (t', some e) | none ↦ (on_wire (set_granted granted) id t', none) ]

  -- `Send`.
  unfoldable pub send : Transfers → Transfers × Option (TransferError E)
  send t = add valid_string now ended connection_ended deadline request id true t

  -- What follows `add` in `SendOpen`; `opened` is the error of `open`.
  unfoldable pub after_open :
      Option E → Transfers × Option (TransferError E) → Transfers × Option (TransferError E)
  after_open opened (t, some e) = (t, some e)
  after_open (some e) (t, none) = (retire true id t, some (context_ended e))
  after_open none (t, none) = (t, none)

  -- `SendOpen`.
  unfoldable pub send_open : Option E → Transfers → Transfers × Option (TransferError E)
  send_open opened t = after_open opened (send t)

-- What beginning to send comes to: an error, and the live transfers and the retained chunks are as they
-- were; or the one transfer more, which was not live before and has retained nothing.
abbrev pub Begins :
    {E : Type 0} → String → String → Transfers → Transfers × Option (TransferError E) → Type 0
Begins request id t (u, some e) = (u.live ≡ t.live) × (u.retained ≡ t.retained)
Begins request id t (u, none) =
    (lookup id t.live ≡ none)
    × (((at : ℕ) × (u.live ≡ insert id (new_wire request true at) t.live))
        × (u.retained ≡ t.retained))

module _ (E : Type 0) (valid_string : Bytes → Bool) (now : ℕ) (ended connection_ended : Option E)
    (deadline : Option ℕ) (request id : String) where
  absent : {A : Type 0} (o : Option A) → is_some o ≡ false → o ≡ none
  absent none h = refl
  absent (some a) h = cc

  admit-Begins :
      (deadline : Option ℕ) (t : Transfers)
      → Begins request id t (admit {E = E} valid_string deadline request id true t)
  unfolding admit
  admit-Begins deadline t =
      elim (Bool-cases (leb 8 (size t.live) || leb 4096 (size t.live + size t.recent))) [
        | inl full ↦ rw (full, admit) (refl, refl)
        | inr room ↦
            elim (Bool-cases (
              not (valid_id valid_string request)
              || (not (valid_id valid_string id)
                  || (is_some (lookup id t.live) || is_some (lookup id t.recent))))) [
                    | inl bad ↦ rw (room, bad, admit) (refl, refl)
                    | inr good ↦ rw (room, good, admit) (begins deadline (ground (arith, good)))
                  ]
      ]
    where
      begins :
          (d : Option ℕ)
          → is_some (lookup id t.live) ≡ false
          → Begins request id t (elim d as (λ _. Transfers × Option (TransferError E)) [
            | none ↦ (t, some protocol_violation)
            | some at ↦ (record t { live = insert id (new_wire request true at) t.live }, none)
          ])
      begins none new = (refl, refl)
      begins (some at) new = (absent (lookup id t.live) new, ((at, refl), refl))

  add-Begins :
      (ended connection_ended : Option E) (t : Transfers)
      → Begins request id t (add valid_string now ended connection_ended deadline request id true t)
  unfolding add
  add-Begins ended over t = elim (Bool-cases t.closed) [
    | inl closed ↦ rw (closed, add) (refl, refl)
    | inr here ↦ rw (here, add) (reaches ended over)
  ]
    where
      from_admitted :
          (r : Transfers × Option (TransferError E))
          → Begins request id (record t { recent = forget now t.recent }) r
          → Begins request id t r
      from_admitted (u, some e) h = h
      from_admitted (u, none) h = h

      reaches :
          (ended over : Option E)
          → Begins request id t (elim ended as (λ _. Transfers × Option (TransferError E)) [
            | some e ↦ (t, some (context_ended e))
            | none ↦ elim over as (λ _. Transfers × Option (TransferError E)) [
              | some e ↦ (t, some (context_ended e))
              | none ↦
                  admit valid_string deadline request id true
                    (record t { recent = forget now t.recent })
            ]
          ])
      reaches (some e) over = (refl, refl)
      reaches none (some e) = (refl, refl)
      reaches none none =
          from_admitted
            (admit valid_string deadline request id true
              (record t { recent = forget now t.recent }))
            (admit-Begins deadline (record t { recent = forget now t.recent }))

  -- The transfer that was begun is taken back.
  retire-Begun :
      (t u : Transfers) (e : E)
      → Begins {E = E} request id t (u, none)
      → Begins request id t (retire true id u, some (context_ended e))
  unfolding retire
  retire-Begun t u e (new, ((at, is), same)) =
      let w = new_wire request true at in
      let there : lookup id u.live ≡ some w = rw is (lookup-insert_self id w t.live) in
      rw (there, retire) (rw is (remove-insert_new id w t.live new), omega (arith, same))

  after_open-Begins :
      (t : Transfers) (opened : Option E) (r : Transfers × Option (TransferError E))
      → Begins request id t r
      → Begins request id t
          (after_open valid_string now ended connection_ended deadline request id opened r)
  unfolding after_open
  after_open-Begins t opened (u, some e) h = h
  after_open-Begins t (some e) (u, none) h = retire-Begun t u e h
  after_open-Begins t none (u, none) h = h

  -- A call of SendOpen that answers an error, also that of its reader, leaves the live transfers
  -- and the count of retained chunks as they were; one that answers none adds the one new transfer,
  -- which was not live before, and retains nothing for it.
  pub send_open-Begins :
      (opened : Option E) (t : Transfers)
      → Begins request id t
          (send_open valid_string now ended connection_ended deadline request id opened t)
  unfolding send_open send
  send_open-Begins opened t = after_open-Begins t opened _ (add-Begins ended connection_ended t)
