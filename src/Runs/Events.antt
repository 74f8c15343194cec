-- ===== src/Runs/Events.antt =====
-- The events of the outbox (src/outbox).
use guardian_backend_service.Prelude.{
  ℕ, ◌≤◌, ◌≡◌, refl, Bool, true, false, some, [], ◌∷◌, includes, nat_eq, if◌then◌else◌,
}
use guardian_backend_service.Prelude.Table.{Table, find, modify, select_where}
use guardian_backend_service.Prelude.Table.Laws.{HasKeys, map_option}
use guardian_backend_service.Data.{assignment_eq, job_eq, OutboxPayload, OutboxEvent, OutboxStatus}
use guardian_backend_service.Outbox.{
  enqueue_event, tick, claim_batch, process_each, process_event, claimed_ids, start_processing,
  rows_with, mark_completed, mark_failed, first_ids, sort_by_time, insert_by_time,
}
use guardian_backend_service.Outbox.Laws.{settle, find-tick, claimed_is_due}
use guardian_backend_service.Outbox.Failures.{
  enqueued, ticked, IsOnceTried, failed_event_stays, no_dead_letter,
}
use guardian_backend_service.Outbox.Failures

abbrev event_at : ℕ → OutboxStatus → OutboxEvent
event_at t status = record {
  payload = OutboxPayload.dispatch_job 50;
  status = status;
  retries = 0;
  scheduled_at = t;
}

abbrev queue : Table OutboxEvent
queue =
    (1, event_at 900 OutboxStatus.pending)
    ∷ (2, event_at 100 OutboxStatus.failed)
    ∷ (3, event_at 2000 OutboxStatus.pending)
    ∷ []

abbrev always : OutboxPayload → Bool
always p = true

abbrev always_fails : OutboxPayload → Bool
always_fails p = false

queue-HasKeys : HasKeys queue
unfolding find
queue-HasKeys = (refl, (refl, (refl, tt)))

settled_queue :
    tick always 1000 queue
    ≡ (1, event_at 900 OutboxStatus.completed)
      ∷ (2, event_at 100 OutboxStatus.failed)
      ∷ (3, event_at 2000 OutboxStatus.pending)
      ∷ []
unfolding tick claim_batch process_each process_event claimed_ids start_processing rows_with
    mark_completed first_ids sort_by_time insert_by_time select_where modify
settled_queue = refl

find-tick_example :
    find 1 (tick always 1000 queue)
    ≡ map_option
        (λ e. if includes (claimed_ids 20 1000 queue) 1 then settle always 1000 e else e)
        (find 1 queue)
find-tick_example = find-tick always 1000 1 queue queue-HasKeys

claimed_is_due_example : (OutboxStatus.pending ≡ OutboxStatus.pending) × (900 ≤ 1000)
unfolding find claimed_ids first_ids sort_by_time insert_by_time select_where
claimed_is_due_example =
    claimed_is_due 1000 1 queue (event_at 900 OutboxStatus.pending) queue-HasKeys refl refl

failed_event_stays_example :
    find 2 (tick always 90000 queue) ≡ some (event_at 100 OutboxStatus.failed)
unfolding find
failed_event_stays_example =
    failed_event_stays 2 (event_at 100 OutboxStatus.failed)
      (ticked Failures.Trace.start always 90000) queue-HasKeys refl refl

one_event : Table OutboxEvent
one_event = enqueue_event 4 900 (OutboxPayload.dispatch_job 50) []

failed_once : OutboxEvent
failed_once = record (event_at 3000 OutboxStatus.failed) { retries = 1 }

no_dead_letter_example : IsOnceTried failed_once
unfolding tick claim_batch process_each process_event claimed_ids start_processing rows_with
    mark_failed first_ids sort_by_time insert_by_time select_where modify enqueue_event find
    one_event failed_once
no_dead_letter_example =
    no_dead_letter
      (ticked (enqueued Failures.Trace.start 4 900 (OutboxPayload.dispatch_job 50) refl)
        always_fails 1000)
      4 failed_once refl
