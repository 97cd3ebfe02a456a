-- ===== src/Ws/Transfers/Invariant.antt =====
-- What holds of the transfers of a connection: the operations that keep it, one by one.
use onprest.Prelude.{
  ℕ, ◌+◌, ◌-◌, ◌≤◌, ◌≡◌, refl, inl, inr, Bool, true, false, not, ◌&&◌, ◌||◌, [], ◌∷◌, Option, none,
  some, String, Bytes, arith, leb, ltb, Bool-cases, Option-cases,
}
use onprest.Prelude.Dict.{
  Dict, lookup, insert, size, sum, Distinct, All, insert-Distinct, remove-Distinct, sum-insert_new,
  sum-insert_old, sum-remove, size-insert_new, size-insert_old, size-insert-le, size-remove,
  All-lookup, All-insert, All-remove,
}
use onprest.Protocol.Frame.{Frame, Base64, valid_id}
use onprest.Ws.Transfers.{
  Retired, Wire, Transfers, new_transfers, is_some, forget, new_wire, admit, add, retired, retire,
  grant, handle, handle_late, live_frame, late_frame,
}
use onprest.Ws.Transfers.Steps.{on_wire, cancel_where}
use onprest.Ws.Transfers.Window.{
  WireIsValid, Keeps, Barrier, held, chunks, ends, state_of, grant-Keeps, live_frame-Keeps,
}

-- The chunks that a transfer retains.
abbrev pub outstanding : Wire → ℕ
outstanding w = w.next - w.acked

pub record IsValid (t : Transfers) : Type 0 where
  pub distinct : Distinct t.live
  pub windows : All WireIsValid t.live
  pub accounted : t.retained ≡ sum outstanding t.live
  pub shared_window : t.retained ≤ 32
  pub few_live : size t.live ≤ 8
  pub remembered : size t.live + size t.recent ≤ 4096

-- A transfer's own chunks are among the connection's.
outstanding-le :
    (id : String) (w : Wire) (t : Transfers)
    → IsValid t
    → lookup id t.live ≡ some w
    → outstanding w ≤ t.retained
outstanding-le id w t v e =
    omega (arith, sum-remove outstanding id w t.live v.distinct e, v.accounted)

update-IsValid :
    (id : String) (w : Wire) (next : Wire × ℕ) (t : Transfers)
    → IsValid t
    → lookup id t.live ≡ some w
    → Keeps w t.retained next
    → IsValid (record t { live = insert id next.0 t.live; retained = next.1 })
update-IsValid id w next t v e k = record {
  distinct = insert-Distinct id next.0 t.live v.distinct;
  windows = All-insert WireIsValid id next.0 t.live v.windows k.0;
  accounted = omega (arith, sum-insert_old outstanding id next.0 w t.live e, v.accounted, k.1);
  shared_window = k.2;
  few_live = omega (arith, size-insert_old id next.0 w t.live e, v.few_live);
  remembered = omega (arith, size-insert_old id next.0 w t.live e, v.remembered);
}

-- A step of a goroutine keeps the connection valid, where it keeps the transfer's window.
pub on_wire-IsValid :
    (step : Wire → ℕ → Wire × ℕ) (id : String) (t : Transfers)
    → ((w : Wire) (r : ℕ) → WireIsValid w → outstanding w ≤ r → r ≤ 32 → Keeps w r (step w r))
    → IsValid t
    → IsValid (on_wire step id t)
unfolding on_wire
on_wire-IsValid step id t keeps v = elim (Option-cases (lookup id t.live)) [
  | inl absent ↦ rw (absent, on_wire) v
  | inr (w, e) ↦
      rw (e, on_wire)
        (update-IsValid id w (step w t.retained) t v e (
          keeps w t.retained (All-lookup WireIsValid id w t.live v.windows e)
            (outstanding-le id w t v e) v.shared_window))
]

handle_late-IsValid :
    (E : Type 0) (now : ℕ) (f : Frame) (t : Transfers)
    → IsValid t
    → IsValid (handle_late {E = E} now f t).0
unfolding handle_late
handle_late-IsValid E now f t v = elim (Option-cases (lookup f.transfer_id t.recent)) [
  | inl absent ↦ rw (absent, handle_late) v
  | inr (r, e) ↦
      rw (e, handle_late)
        (elim (Bool-cases (r.canceled && ltb now r.expiry)) [
          | inr gone ↦ rw gone v
          | inl known ↦ rw known (record {
            distinct = v.distinct;
            windows = v.windows;
            accounted = v.accounted;
            shared_window = v.shared_window;
            few_live = v.few_live;
            remembered = omega (
              arith,
              size-insert_old f.transfer_id (late_frame {E = E} f r).0 r t.recent e,
              v.remembered,
            );
          })
        ])
]

pub handle-IsValid :
    (E : Type 0) (base64 : Base64) (now : ℕ) (f : Frame) (t : Transfers)
    → IsValid t
    → IsValid (handle {E = E} base64 now f t).0
unfolding handle
handle-IsValid E base64 now f t v = elim (Option-cases (lookup f.transfer_id t.live)) [
  | inl absent ↦ rw (absent, handle) (handle_late-IsValid E now f t v)
  | inr (w, e) ↦
      rw (e, handle)
        (update-IsValid f.transfer_id w (state_of (live_frame {E = E} base64 f w t.retained)) t v e
          (live_frame-Keeps E base64 f w t.retained
            (All-lookup WireIsValid f.transfer_id w t.live v.windows e)
            (outstanding-le f.transfer_id w t v e) v.shared_window))
]

pub retire-IsValid :
    (failing : Bool) (id : String) (t : Transfers) → IsValid t → IsValid (retire failing id t)
unfolding retire
retire-IsValid failing id t v = elim (Option-cases (lookup id t.live)) [
  | inl absent ↦ rw (absent, retire) v
  | inr (w, e) ↦
      rw (e, retire)
        (record {
          distinct = remove-Distinct id t.live v.distinct;
          windows = All-remove WireIsValid id t.live v.windows;
          accounted = omega (arith, sum-remove outstanding id w t.live v.distinct e, v.accounted);
          shared_window = omega (arith, v.shared_window);
          few_live = omega (arith, size-remove id w t.live e, v.few_live);
          remembered = omega (
            arith,
            size-remove id w t.live e,
            size-insert-le id (retired (failing || w.canceled) w) t.recent,
            v.remembered,
          );
        })
]

size-forget-le : (now : ℕ) (d : Dict Retired) → size (forget now d) ≤ size d
unfolding size forget
size-forget-le now [] = omega arith
size-forget-le now ((id, r) ∷ d) = ground (arith, size-forget-le now d)

new_wire-IsValid :
    (request : String) (sending : Bool) (at : ℕ) → WireIsValid (new_wire request sending at)
unfolding Barrier held chunks ends
new_wire-IsValid request true at = ground arith
new_wire-IsValid request false at = ground arith

absent_of : (o : Option Wire) → is_some o ≡ false → o ≡ none
absent_of none e = refl
absent_of (some w) e = absurd (ground arith)

pub admit-IsValid :
    (E : Type 0) (valid_string : Bytes → Bool) (deadline : Option ℕ) (request id : String)
    (sending : Bool) (t : Transfers)
    → IsValid t
    → IsValid (admit {E = E} valid_string deadline request id sending t).0
unfolding admit
admit-IsValid E valid_string deadline request id sending t v =
    elim (Bool-cases (leb 8 (size t.live) || leb 4096 (size t.live + size t.recent))) [
      | inl full ↦ rw (full, admit) v
      | inr room ↦
          elim (Bool-cases (
            not (valid_id valid_string request)
            || (not (valid_id valid_string id)
                || (is_some (lookup id t.live) || is_some (lookup id t.recent))))) [
                  | inl bad ↦ rw (room, bad, admit) v
                  | inr good ↦ elim (Option-cases deadline) [
                    | inl never ↦ rw (room, good, never, admit) v
                    | inr (at, e) ↦
                        let absent : lookup id t.live ≡ none =
                          absent_of (lookup id t.live) (ground arith) in
                        rw (room, good, e, admit)
                          (record {
                            distinct =
                                insert-Distinct id (new_wire request sending at) t.live v.distinct;
                            windows =
                                All-insert WireIsValid id (new_wire request sending at) t.live
                                  v.windows (new_wire-IsValid request sending at);
                            accounted = omega (
                              arith,
                              sum-insert_new outstanding id (new_wire request sending at) t.live
                                  absent,
                              v.accounted,
                            );
                            shared_window = v.shared_window;
                            few_live = ground (
                              arith,
                              size-insert_new id (new_wire request sending at) t.live absent,
                            );
                            remembered = ground (
                              arith,
                              size-insert_new id (new_wire request sending at) t.live absent,
                            );
                          })
                  ]
                ]
    ]

pub add-IsValid :
    (E : Type 0) (valid_string : Bytes → Bool) (now : ℕ) (ended connection_ended : Option E)
    (deadline : Option ℕ) (request id : String) (sending : Bool) (t : Transfers)
    → IsValid t
    → IsValid (add valid_string now ended connection_ended deadline request id sending t).0
unfolding add
add-IsValid E valid_string now ended connection_ended deadline request id sending t v =
    let swept : IsValid (record t { recent = forget now t.recent }) = record {
      distinct = v.distinct;
      windows = v.windows;
      accounted = v.accounted;
      shared_window = v.shared_window;
      few_live = v.few_live;
      remembered = omega (arith, size-forget-le now t.recent, v.remembered);
    } in
    ground (
      arith,
      v,
      admit-IsValid E valid_string deadline request id sending
          (record t { recent = forget now t.recent }) swept,
    )

pub grant-IsValid :
    (E : Type 0) (id : String) (t : Transfers) → IsValid t → IsValid (grant {E = E} id t).0
unfolding grant
grant-IsValid E id t v = elim (Option-cases (lookup id t.live)) [
  | inl absent ↦ rw (absent, grant) v
  | inr (w, e) ↦ elim (Bool-cases (w.sending || w.granted)) [
    | inl bad ↦ rw (e, bad, grant) v
    | inr good ↦
        rw (e, good, grant)
          (update-IsValid id w (record w { granted = true }, t.retained) t v e
            (grant-Keeps w t.retained (All-lookup WireIsValid id w t.live v.windows e)
              (outstanding-le id w t v e) v.shared_window))
  ]
]

cancel_where-absent :
    (test : Wire → Bool) (id : String) (d : Dict Wire)
    → lookup id d ≡ none
    → lookup id (cancel_where test d) ≡ none
unfolding lookup cancel_where
cancel_where-absent test id [] e = refl
cancel_where-absent test id ((k, w) ∷ d) e = ground (arith, cancel_where-absent test id d)

cancel_where-Distinct :
    (test : Wire → Bool) (d : Dict Wire) → Distinct d → Distinct (cancel_where test d)
unfolding cancel_where
cancel_where-Distinct test [] h = tt
cancel_where-Distinct test ((k, w) ∷ d) h =
    (cancel_where-absent test k d h.0, cancel_where-Distinct test d h.1)

cancel_where-All :
    (test : Wire → Bool) (d : Dict Wire) → All WireIsValid d → All WireIsValid (cancel_where test d)
unfolding cancel_where
cancel_where-All test [] h = tt
cancel_where-All test ((k, w) ∷ d) h = elim (Bool-cases (test w)) [
  | inl e ↦ rw e (h.0, cancel_where-All test d h.1)
  | inr e ↦ rw e (h.0, cancel_where-All test d h.1)
]

cancel_where-sum :
    (test : Wire → Bool) (d : Dict Wire) → sum outstanding (cancel_where test d) ≡ sum outstanding d
unfolding cancel_where sum
cancel_where-sum test [] = refl
cancel_where-sum test ((k, w) ∷ d) = ground (arith, cancel_where-sum test d)

cancel_where-size : (test : Wire → Bool) (d : Dict Wire) → size (cancel_where test d) ≡ size d
unfolding cancel_where size
cancel_where-size test [] = refl
cancel_where-size test (x ∷ d) = ground (arith, cancel_where-size test d)

pub cancel_where-IsValid :
    (test : Wire → Bool) (closed : Bool) (t : Transfers)
    → IsValid t
    → IsValid (record t { closed = closed; live = cancel_where test t.live })
cancel_where-IsValid test closed t v = record {
  distinct = cancel_where-Distinct test t.live v.distinct;
  windows = cancel_where-All test t.live v.windows;
  accounted = omega (arith, cancel_where-sum test t.live, v.accounted);
  shared_window = v.shared_window;
  few_live = omega (arith, cancel_where-size test t.live, v.few_live);
  remembered = omega (arith, cancel_where-size test t.live, v.remembered);
}

pub new_transfers-IsValid : IsValid new_transfers
unfolding sum size
new_transfers-IsValid = record {
  distinct = tt;
  windows = tt;
  accounted = refl;
  shared_window = omega arith;
  few_live = omega arith;
  remembered = omega arith;
}
