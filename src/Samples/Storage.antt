-- ===== src/Samples/Storage.antt =====
-- The artifact store on concrete inputs: a reservation, a request with a file, and its write.
use onprest.Prelude.{◌≡◌, refl, true, false, [], ◌∷◌, Option, none, some, String, Bytes}
use onprest.Prelude.Dict.{lookup, insert, remove, sum, size}
use onprest.Agent.Artifacts.{
  Fault, permission_denied, receiving, ready_to_run, executing, input, Owner, owner_eq, Options,
  Stage, Reader, Store, new_store, reserve, reserve_locked, available,
}
use onprest.Agent.Artifacts.Stages.{
  seal, open_locked, add_request_bytes, add_scope_bytes, created, write, new_file_stage, new_stage,
  created_stage, write_refusal, write_checked, write_reserved, wrote, request_takes, scope_takes,
  find, leaf_limit,
}
use onprest.Agent.Artifacts.Cleanup.{
  is_key, release_slot, any_listed, close_found, close_open, close_reader, cleanup, Disk,
}
use onprest.Agent.Artifacts.Input.{
  Capability, begin_input, new_file, new_file_checked, new_request, check, claims_eq, FileValue,
}
use onprest.Agent.Artifacts.Requests.{
  complete, can_complete, commit, leaves_match, leaf_matches, contains, open_file, open_claimed,
  start, abort_request, release_stopped, release_stopped_locked, retire_all,
}
use onprest.Agent.Artifacts.Saves.{settle_save, charge_growth, actual_total}
use onprest.Agent.Artifacts.Valid.{IsValid}
use onprest.Agent.Artifacts.Output.{new_output, begin_output, finish}
use onprest.Agent.Artifacts.Sweep.{
  revoke_generation, revoke_requests, revoke_request, each_stage, revoke_stage, cancel_readers,
}
use onprest.Agent.Artifacts.Reachable.{Step, Reachable, store_stays-IsValid, reader_keeps_file}
use onprest.Agent.Artifacts.Refusals.{
  Answers, Guarded, Admitted, Owned, write-Answers, requests-Guarded,
}

abbrev digest_of : Bytes → String
digest_of content = "digest"

abbrev small : Options
small = record { quota_bytes = 100; max_pending = 2; max_objects = 4; transfer_timeout = 50 }

abbrev alice : Owner
alice = record {
  request_id = "r1";
  caller_binding = "alice";
  capability = "upload";
  definition_hash = "h";
  auth_generation = "g1";
}

abbrev mallory : Owner
mallory = record alice { caller_binding = "mallory" }

abbrev upload : Capability
upload = record {
  name = "upload";
  limits = record { max_file_bytes = 8; max_total_bytes = 16; max_files = 2 };
  takes_files = true;
  leaf_max = λ pointer. some 6;
}

abbrev with_reservation : Store
with_reservation = (reserve "lease" 40 (new_store small)).0

abbrev with_request : Store
with_request = (begin_input true false none none 7 "request" alice upload with_reservation).0

abbrev with_file : Store
with_file =
    (new_file false false true created "/file" "a.txt" "text/plain" "stage" "request" alice
      with_request).0

abbrev with_bytes_and_answer : Store × Option Fault
with_bytes_and_answer = write false "stage" (104 ∷ 105 ∷ []) 1 false with_file

abbrev with_bytes : Store
with_bytes = with_bytes_and_answer.0

with_bytes_reachable : Reachable digest_of small with_bytes
unfolding lookup begin_input available reserve sum reserve_locked size
with_bytes_reachable =
    Reachable.after
      (Reachable.after
        (Reachable.after (Reachable.after Reachable.fresh (Step.reserved "lease" 40 refl))
          (Step.input_begun true false none none 7 "request" alice upload))
        (Step.file_begun false false true created "/file" "a.txt" "text/plain" "stage" "request"
          alice refl))
      (Step.wrote false "stage" (104 ∷ 105 ∷ []) 1 false)

store_stays-IsValid_example : IsValid with_bytes
store_stays-IsValid_example = store_stays-IsValid digest_of small with_bytes with_bytes_reachable

-- One of the two bytes was written, and the other's quota given back.
one_byte_used : with_bytes.used ≡ 41
unfolding lookup insert begin_input available reserve sum reserve_locked size new_file
    new_file_checked check owner_eq new_stage created_stage write write_refusal write_checked
    write_reserved wrote request_takes scope_takes find leaf_limit
one_byte_used = refl

abbrev begun_stage : Stage
begun_stage = record (new_file_stage alice input "a.txt" "text/plain") { request = some "request" }

stage_is_there : lookup "stage" with_file.stages ≡ some begun_stage
unfolding lookup insert begin_input available reserve sum reserve_locked size new_file
    new_file_checked check owner_eq new_stage created_stage
stage_is_there = refl

write-Answers_example : Answers "stage" begun_stage (104 ∷ 105 ∷ []) with_file with_bytes_and_answer
write-Answers_example =
    write-Answers false "stage" begun_stage (104 ∷ 105 ∷ []) 1 false with_file stage_is_there

request_is_there : lookup "request" with_request.requests ≡ some (new_request alice upload 57)
unfolding lookup insert begin_input available reserve sum reserve_locked size
request_is_there = refl

abbrev every_disk : Disk
every_disk = record { closes = λ id. true; removes = λ id. true; closes_reader = λ key. true }

abbrev claimed : FileValue
claimed = record {
  pointer = "/file";
  id = "stage";
  request_id = "r1";
  claims = record { name = "a.txt"; mime = "text/plain"; size_bytes = 1; digest = "digest" };
}

requests-Guarded_example :
    let here = Guarded "request" mallory with_request in
    here (Admitted false receiving with_request) (
      new_file false false true created "/file" "a" "text/plain" "stage" "request" mallory
        with_request)
    × (here
          (Admitted false receiving with_request)
          (complete digest_of false true "request" "stage" mallory 1 "digest" with_request)
        × (here
              (Admitted false receiving with_request)
              (commit digest_of false "request" mallory (some []) with_request)
            × (here
                  (Admitted false ready_to_run with_request)
                  (start false true "request" mallory with_request)
                × (here (Admitted false executing with_request) (
                      open_file digest_of false none "reader" "request" mallory claimed
                        with_request)
                    × (here Owned (abort_request "request" mallory with_request)
                        × here Owned
                            (release_stopped every_disk "request" mallory with_request))))))
requests-Guarded_example =
    requests-Guarded digest_of "request" mallory with_request false false true true created
      every_disk "/file" "a" "text/plain" "stage" "reader" "digest" 1 (some []) none claimed

-- Another caller is refused.
mallory_is_refused :
    abort_request "request" mallory with_request ≡ (with_request, some permission_denied)
unfolding abort_request lookup insert begin_input available reserve sum reserve_locked size owner_eq
mallory_is_refused = refl

-- An output whose file is read while its generation is revoked.
abbrev read_output : Store × Option Fault
read_output =
    let a =
      (new_output true "scope" alice
        (record { max_file_bytes = 8; max_total_bytes = 8; max_files = 1 }) 60
        (new_store small)).0 in
    let b = (begin_output true false created "o.txt" "text/plain" "out" "scope" a).0 in
    let c = (write false "out" (104 ∷ []) 1 false b).0 in
    let d = (seal false "out" c).0 in
    finish digest_of false none "reader" "out"
      (record { name = "o.txt"; mime = "text/plain"; size_bytes = 1; digest = "digest" }) d

abbrev revoked : Store
revoked = (revoke_generation every_disk "g1" read_output.0).0

revoked_reachable : Reachable digest_of small revoked
unfolding lookup new_output available
revoked_reachable =
    Reachable.after
      (Reachable.after
        (Reachable.after
          (Reachable.after
            (Reachable.after
              (Reachable.after Reachable.fresh (
                Step.output_made true "scope" alice
                  (record { max_file_bytes = 8; max_total_bytes = 8; max_files = 1 }) 60))
              (Step.output_begun true false created "o.txt" "text/plain" "out" "scope" refl))
            (Step.wrote false "out" (104 ∷ []) 1 false))
          (Step.sealed false "out"))
        (Step.output_finished false none "reader" "out"
          (record { name = "o.txt"; mime = "text/plain"; size_bytes = 1; digest = "digest" })))
      (Step.revoked every_disk "g1")

abbrev canceled_reader : Reader
canceled_reader = record { stage = "out"; canceled = true; is_closed = false }

reader_is_there : lookup "reader" revoked.leases ≡ some canceled_reader
unfolding lookup insert new_output available begin_output new_stage created_stage sum size write
    write_refusal write_checked write_reserved wrote request_takes scope_takes find reserve_locked
    add_request_bytes add_scope_bytes seal finish claims_eq open_locked revoke_generation
    revoke_requests each_stage revoke_stage cancel_readers cleanup
reader_is_there = refl

reader_keeps_file_example :
    (st : Stage) × ((lookup "out" revoked.stages ≡ some st) × (st.listed ≡ true))
reader_keeps_file_example =
    reader_keeps_file digest_of small revoked "reader" canceled_reader revoked_reachable
      reader_is_there refl

-- A request that executes, is released while its file is read, and then revoked.
abbrev opened : Store
opened =
    let a = (write false "stage" (104 ∷ []) 1 false with_file).0 in
    let b = (seal false "stage" a).0 in
    let c = (complete digest_of false true "request" "stage" alice 1 "digest" b).0 in
    let d =
      (commit digest_of false "request" alice
        (some (record { pointer = "/file"; value = claimed } ∷ [])) c).0 in
    let e = (start false false "request" alice d).0 in
    (open_file digest_of false none "reader" "request" alice claimed e).0

abbrev released_then_revoked : Store
released_then_revoked =
    (revoke_generation every_disk "g1" (release_stopped every_disk "request" alice opened).0).0

-- The reader's end removes the file, and the request still has its place.
place_is_kept :
    lookup "r1" (close_reader every_disk "reader" released_then_revoked).0.pending ≡ some "request"
unfolding lookup insert remove begin_input available reserve sum reserve_locked size new_file
    new_file_checked check owner_eq new_stage created_stage write write_refusal write_checked
    write_reserved wrote request_takes scope_takes find leaf_limit seal add_request_bytes
    add_scope_bytes complete can_complete is_key commit leaves_match leaf_matches contains claims_eq
    start open_file open_claimed open_locked release_stopped release_stopped_locked retire_all
    cleanup release_slot any_listed revoke_generation revoke_requests revoke_request each_stage
    revoke_stage cancel_readers close_reader close_found close_open
place_is_kept = refl

-- Without the revocation, the place is given back.
place_is_given_back :
    lookup "r1"
      (close_reader every_disk "reader"
        (release_stopped every_disk "request" alice opened).0).0.pending
    ≡ none
unfolding lookup insert remove begin_input available reserve sum reserve_locked size new_file
    new_file_checked check owner_eq new_stage created_stage write write_refusal write_checked
    write_reserved wrote request_takes scope_takes find leaf_limit seal add_request_bytes
    add_scope_bytes complete can_complete is_key commit leaves_match leaf_matches contains claims_eq
    start open_file open_claimed open_locked release_stopped release_stopped_locked retire_all
    cleanup release_slot any_listed close_reader close_found close_open
place_is_given_back = refl

-- A save whose files grew beyond what was reserved: the growth is charged over the quota of 100, and
-- the store is poisoned.
abbrev saving : Store
saving = (reserve "save" 90 (new_store small)).0

grown_over_quota :
    (settle_save "save"
      (record { bytes = 90; is_released = false })
      40
      ((50, some 80) ∷ [])
      saving).used
    ≡ 120
unfolding settle_save charge_growth actual_total reserve reserve_locked available lookup insert sum
grown_over_quota = refl
