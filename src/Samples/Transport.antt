-- ===== src/Samples/Transport.antt =====
-- The transfers and the scheduler of a connection on concrete inputs.
use onprest.Prelude.{ℕ, ◌≤◌, ◌≡◌, refl, Bool, true, false, [], ◌∷◌, none, some, Bytes}
use onprest.Prelude.Dict.{remove, lookup, insert, size}
use onprest.Protocol.Frame.{Frame, Base64, valid_id, contains_zero}
use onprest.Ws.Transfers.{
  Wire, Transfers, eof, finishing, new_transfers, forget, admit, add, grant, handle, new_wire,
  retire,
}
use onprest.Ws.Transfers.Steps.{
  on_wire, reserve, reserve_at, read, read_at, after_empty, drain, drain_at,
}
use onprest.Ws.Transfers.Open.{send, after_open, send_open, Begins, send_open-Begins}
use onprest.Ws.Transfers.Invariant.{IsValid}
use onprest.Ws.Transfers.Reachable.{
  Reachable, start, after, added, was_granted, handled, reserved, was_read, drained,
  Reachable-IsValid, transfer_window_holds, end_is_barrier,
}

abbrev all_valid : Bytes → Bool
all_valid bs = true

abbrev plain : Base64
plain = record { encoded_len = λ n. n; decode_string = some; encode_to_string = λ b. b }

abbrev first_chunk : Frame
first_chunk = record {
  kind = "transfer_chunk";
  id = "r";
  transfer_id = "t";
  sequence = 0;
  data_base64 = 65 ∷ [];
}

abbrev with_receiver : Transfers
with_receiver = (add {E = ℕ} all_valid 0 none none (some 100) "r" "t" false new_transfers).0

abbrev with_chunk : Transfers
with_chunk = (handle {E = ℕ} plain 5 first_chunk (grant {E = ℕ} "t" with_receiver).0).0

chunk_reached : Reachable ℕ all_valid plain with_chunk
chunk_reached =
    after (after (after start (added 0 none none (some 100) "r" "t" false)) (was_granted "t"))
      (handled 5 first_chunk)

Reachable-IsValid_example : IsValid with_chunk
Reachable-IsValid_example = Reachable-IsValid ℕ all_valid plain chunk_reached

abbrev with_end : Transfers
with_end = on_wire drain "t" (
    on_wire (read 0 eof) "t" (
      on_wire reserve "t"
        (add {E = ℕ} all_valid 0 none none (some 100) "r" "t" true new_transfers).0))

end_reached : Reachable ℕ all_valid plain with_end
end_reached =
    after
      (after (after (after start (added 0 none none (some 100) "r" "t" true)) (reserved "t"))
        (was_read 0 eof "t"))
      (drained "t")

abbrev ended : Wire
ended = record (new_wire "r" true 100) { phase = finishing }

ended_is_live : lookup "t" with_end.live ≡ some ended
unfolding add admit forget valid_id contains_zero size insert lookup on_wire reserve reserve_at read
    read_at after_empty drain drain_at
ended_is_live = refl

abbrev granted_receiver : Transfers
granted_receiver = (grant {E = ℕ} "t" with_receiver).0

abbrev receiver : Wire
receiver = record (new_wire "r" false 100) { granted = true }

receiver_is_live : lookup "t" granted_receiver.live ≡ some receiver
unfolding add admit forget valid_id contains_zero size insert lookup grant
receiver_is_live = refl

transfer_window_holds_example : (0 ≤ 0) × (0 ≤ 4) × (0 ≤ 5)
transfer_window_holds_example =
    transfer_window_holds ℕ all_valid plain "t" receiver
      (after (after start (added 0 none none (some 100) "r" "t" false)) (was_granted "t"))
      receiver_is_live refl

end_is_barrier_example : (ended.acked ≡ ended.next) × (ended.sent ≡ ended.next)
end_is_barrier_example = end_is_barrier ℕ all_valid plain "t" ended end_reached ended_is_live refl

send_open-Begins_example :
    Begins "r" "u" with_chunk
      (send_open {E = ℕ} all_valid 1 none none (some 100) "r" "u" (some 3) with_chunk)
send_open-Begins_example =
    send_open-Begins ℕ all_valid 1 none none (some 100) "r" "u" (some 3) with_chunk

-- The reader fails to open, and the transfer is retired.
failed_open_is_retired :
    lookup "u"
      (send_open {E = ℕ} all_valid 1 none none (some 100) "r" "u" (some 3) with_chunk).0.live
    ≡ none
unfolding send_open send after_open add admit forget valid_id contains_zero size insert lookup
    retire remove handle grant
failed_open_is_retired = refl
