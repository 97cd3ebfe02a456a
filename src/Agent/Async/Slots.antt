-- ===== src/Agent/Async/Slots.antt =====
-- The slots that a session counts are its handles.
use onprest.Prelude.{
  ℕ, ◌+◌, ◌≤◌, ◌≡◌, refl, true, false, [], ◌++◌, Option, none, some, String, Bytes, arith, inl, inr,
  Bool-cases, leb, drop,
}
use onprest.Prelude.Dict.{
  lookup, sum, Distinct, insert-Distinct, remove-Distinct, sum-insert_new, sum-insert_old,
  sum-remove,
}
use onprest.Agent.Async.{
  data_kind, reserved_kind, Entry, Job, new_entry, Session, Answer, add_handle, delete_handle,
  async_id, delete_found, async_delete, control_made, async_control, put, on_found, on_entry,
  job_control, read, write, close, or_empty,
}

abbrev pub one : Entry → ℕ
one e = 1

pub record IsValid (s : Session) : Type 0 where
  pub distinct : Distinct s.entries
  pub accounted : s.slots ≡ s.others + sum one s.entries
  pub within_limit : s.slots ≤ s.limit

pub put-IsValid :
    (k : String) (e e' : Entry) (s : Session)
    → IsValid s
    → lookup k s.entries ≡ some e
    → IsValid (put k e' s)
put-IsValid k e e' s v h = record {
  distinct = insert-Distinct k e' s.entries v.distinct;
  accounted = omega (arith, v.accounted, sum-insert_old one k e' e s.entries h);
  within_limit = v.within_limit;
}

-- The key of a new handle is not in use.
abbrev pub IsFresh : Option String → Session → Type 0
IsFresh none s = Unit
IsFresh (some k) s = lookup k s.entries ≡ none

pub async_id-IsValid :
    (k : Option String) (e : Entry) (s : Session)
    → IsValid s
    → IsFresh k s
    → IsValid (async_id k e s).0
unfolding async_id
async_id-IsValid none e s v fresh = v
async_id-IsValid (some k) e s v fresh = elim (Bool-cases (leb s.limit s.slots)) [
  | inl full ↦ rw full v
  | inr room ↦ rw room (record {
    distinct = insert-Distinct k e s.entries v.distinct;
    accounted = omega (arith, v.accounted, sum-insert_new one k e s.entries fresh);
    within_limit = ground (arith, room);
  })
]

delete_found-IsValid :
    (k : String) (found : Option Entry) (s : Session)
    → IsValid s
    → lookup k s.entries ≡ found
    → IsValid (delete_found k found s)
unfolding delete_found
delete_found-IsValid k none s v h = v
delete_found-IsValid k (some e) s v h = record {
  distinct = remove-Distinct k s.entries v.distinct;
  accounted = omega (arith, v.accounted, sum-remove one k e s.entries v.distinct h);
  within_limit = omega (arith, v.within_limit);
}

pub async_delete-IsValid : (k : String) (s : Session) → IsValid s → IsValid (async_delete k s)
unfolding async_delete
async_delete-IsValid k s v = delete_found-IsValid k (lookup k s.entries) s v refl

-- An operation on an entry keeps the session valid, where it does so on an entry that exists.
pub on_entry-IsValid :
    (k : String) (f : Entry → Session × Answer) (s : Session)
    → IsValid s
    → ((e : Entry) → lookup k s.entries ≡ some e → IsValid (f e).0)
    → IsValid (on_entry k f s).0
on_entry-IsValid k f s v each = found (lookup k s.entries) refl
  where
    found : (o : Option Entry) → lookup k s.entries ≡ o → IsValid (on_found f s o).0
    found none h = v
    found (some e) h = each e h

pub control_made-IsValid : (r : Session × Option String) → IsValid r.0 → IsValid (control_made r).0
unfolding control_made
control_made-IsValid (s, none) v = v
control_made-IsValid (s, some k) v = v

pub async_control-IsValid :
    (k : Option String) (raw : Option Bytes) (s : Session)
    → IsValid s
    → IsFresh k s
    → IsValid (async_control k raw s).0
unfolding async_control
async_control-IsValid k raw s v fresh =
    let e = record (new_entry data_kind) { left = or_empty raw } in
    ground (arith, v, control_made-IsValid (async_id k e s) (async_id-IsValid k e s v fresh))

pub job_control-IsValid :
    (j : Job) (raw : Option Bytes) (s : Session) → IsValid s → IsValid (job_control j raw s).0
unfolding job_control
job_control-IsValid j raw s v = on_entry-IsValid j.control _ s v (λ e h. ground (
  arith,
  v,
  put-IsValid j.control e (record e { kind = data_kind; left = or_empty raw; borrowed = true }) s v
      h,
))

pub read-IsValid : (k : String) (count : ℕ) (s : Session) → IsValid s → IsValid (read k count s).0
unfolding read
read-IsValid k count s v =
    on_entry-IsValid k _ s v
      (λ e h. ground (arith, v, put-IsValid k e (record e { left = drop count e.left }) s v h))

pub write-IsValid : (k : String) (p : Bytes) (s : Session) → IsValid s → IsValid (write k p s).0
unfolding write
write-IsValid k p s v =
    on_entry-IsValid k _ s v
      (λ e h. ground (arith, v, put-IsValid k e (record e { buffer = e.buffer ++ p }) s v h))

pub close-IsValid : (k : String) (s : Session) → IsValid s → IsValid (close k s).0
unfolding close
close-IsValid k s v = on_entry-IsValid k _ s v (λ e h. ground (
  arith,
  v,
  put-IsValid k e (record e { ready = true }) s v h,
  async_delete-IsValid k s v,
  put-IsValid k e (record e { kind = reserved_kind; left = []; borrowed = false }) s v h,
))

pub add_handle-IsValid : (s : Session) → IsValid s → IsValid (add_handle s)
unfolding add_handle
add_handle-IsValid s v = ground (arith, v)

pub delete_handle-IsValid : (s : Session) → IsValid s → IsValid (delete_handle s)
unfolding delete_handle
delete_handle-IsValid s v = ground (arith, v)
