-- ===== src/Samples/Handles.antt =====
-- The handles of a session on concrete inputs: a job that begins, ends and is polled.
use onprest.Prelude.{◌≡◌, refl, true, false, [], ◌∷◌, some}
use onprest.Prelude.Dict.{lookup, insert, remove}
use onprest.Agent.Async.{
  Session, Answer, handle, is_invalid, new_session, async_id, async_delete, delete_found,
  job_control, fits, close,
}
use onprest.Agent.Async.Jobs.{
  plain, admitted, begin_job, begin_task, start_job, job_made, acknowledged, is_some, complete_job,
  poll_job, finish_job, hand_over, detach, handed_over, detached, is_reserved,
}
use onprest.Agent.Async.Slots.{IsValid}
use onprest.Agent.Async.Reachable.{Step, Reachable, slots-IsValid}

abbrev at_first : Session
at_first = new_session 3 2

abbrev begun : Session
begun =
    (admitted false false true
      (begin_job plain (some "job") (some "control") (some "payload") (some (123 ∷ []))) at_first).0

abbrev after_close : Session
after_close = (close "control" begun).0

abbrev completed : Session
completed = complete_job "job" (7 ∷ 8 ∷ []) after_close

abbrev polled : Session × Answer
polled = admitted false false false (poll_job "job" (some (123 ∷ []))) completed

polled_reachable : Reachable 3 2 polled.0
unfolding lookup
polled_reachable =
    Reachable.after
      (Reachable.after
        (Reachable.after
          (Reachable.after Reachable.begun (
            Step.began false false plain (some "job") (some "control") (some "payload")
              (some (123 ∷ []))
              (record {
                job_fresh = refl;
                control_fresh = refl;
                payload_fresh = refl;
                apart_control = refl;
                apart_payload = refl;
                apart_slots = refl;
              })))
          (Step.closed "control"))
        (Step.completed "job" (7 ∷ 8 ∷ [])))
      (Step.polled false false "job" (some (123 ∷ [])))

slots-IsValid_example : IsValid polled.0
slots-IsValid_example = slots-IsValid 3 2 polled.0 polled_reachable

-- The job's own slot is free again, its control and its payload are not yet.
two_slots_stay : (polled.0.slots ≡ 2) × (polled.1 ≡ handle "control")
unfolding lookup insert remove admitted begin_job begin_task start_job job_made acknowledged is_some
    complete_job poll_job finish_job hand_over handed_over detach detached is_reserved async_id
    async_delete delete_found job_control fits close
two_slots_stay = (refl, refl)

-- A control that is closed twice is no longer the job's, which then cannot be polled.
closed_twice : (poll_job "job" (some (123 ∷ [])) (close "control" after_close).0).1 ≡ is_invalid
unfolding lookup insert remove admitted begin_job begin_task start_job job_made acknowledged is_some
    poll_job is_reserved async_id async_delete delete_found job_control fits close
closed_twice = refl
