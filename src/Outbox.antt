-- ===== src/Outbox.antt =====
-- OutboxService and OutboxWorker (src/outbox/outbox.service.ts, src/outbox/outbox.worker.ts): the
-- table of events, and a worker that claims a batch of them and settles one after another.
pub mod Laws
pub mod Failures
use guardian_backend_service.Prelude.{
  ℕ, zero, suc, ◌+◌, ◌*◌, ◌^◌, min, Bool, true, false, Option, none, some, List, [], ◌∷◌, ◌===◌,
  ◌&&◌, includes, nat_eq, leb, if◌then◌else◌,
}
use guardian_backend_service.Prelude.Table.{Table, modify, select_where}
use guardian_backend_service.Data.{OutboxPayload, OutboxEvent, OutboxStatus, outbox_eq}

-- `WHERE status = 'PENDING' AND scheduled_at <= NOW()`
abbrev pub is_due : ℕ → OutboxEvent → Bool
is_due now e = e.status === OutboxStatus.pending && leb e.scheduled_at now

-- `ORDER BY scheduled_at ASC`, by insertion
unfoldable pub insert_by_time : ℕ × OutboxEvent → Table OutboxEvent → Table OutboxEvent
insert_by_time e [] = e ∷ []
insert_by_time e (f ∷ t) =
    if leb e.1.scheduled_at f.1.scheduled_at then e ∷ f ∷ t else f ∷ insert_by_time e t

unfoldable pub sort_by_time : Table OutboxEvent → Table OutboxEvent
unfolding insert_by_time
sort_by_time [] = []
sort_by_time (e ∷ t) = insert_by_time e (sort_by_time t)

-- `LIMIT`, and the ids alone
unfoldable pub first_ids : ℕ → Table OutboxEvent → List ℕ
first_ids zero t = []
first_ids (suc n) [] = []
first_ids (suc n) ((id, e) ∷ t) = id ∷ first_ids n t

-- `updateMany({ where: { id: { in: ids } }, data: { status: PROCESSING } })`
unfoldable pub start_processing : List ℕ → Table OutboxEvent → Table OutboxEvent
start_processing ids [] = []
start_processing ids ((id, e) ∷ t) =
    (if includes ids id then (id, record e { status = OutboxStatus.processing }) else (id, e))
    ∷ start_processing ids t

-- `findMany({ where: { id: { in: ids } } })`
unfoldable pub rows_with : List ℕ → Table OutboxEvent → Table OutboxEvent
rows_with ids [] = []
rows_with ids ((id, e) ∷ t) = if includes ids id then (id, e) ∷ rows_with ids t else rows_with ids t

unfoldable pub claimed_ids : ℕ → ℕ → Table OutboxEvent → List ℕ
unfolding sort_by_time first_ids select_where
claimed_ids limit now t = first_ids limit (sort_by_time (select_where (is_due now) t))

-- the claimed rows, and the table with them in processing; no other worker holds a lock
unfoldable pub claim_batch : ℕ → ℕ → Table OutboxEvent → Table OutboxEvent × Table OutboxEvent
unfolding claimed_ids start_processing rows_with
claim_batch limit now t =
    let ids = claimed_ids limit now t in
    let started = start_processing ids t in (rows_with ids started, started)

unfoldable pub mark_completed : ℕ → Table OutboxEvent → Table OutboxEvent
unfolding modify
mark_completed id t = modify id (λ e. record e { status = OutboxStatus.completed }) t

abbrev pub backoff_ms : ℕ → ℕ
backoff_ms retries = min 60000 (2 ^ retries * 1000)

-- the columns of a failed event: `retries` is the count of the row that was claimed
abbrev pub failed_event : ℕ → ℕ → OutboxEvent → OutboxEvent
failed_event now retries e =
    if leb 5 (retries + 1)
    then record e { status = OutboxStatus.dead_letter; retries = retries + 1 }
    else record e {
      status = OutboxStatus.failed;
      retries = retries + 1;
      scheduled_at = now + backoff_ms (retries + 1);
    }

unfoldable pub mark_failed : ℕ → ℕ → ℕ → Table OutboxEvent → Table OutboxEvent
unfolding modify
mark_failed now id retries t = modify id (failed_event now retries) t

-- `enqueue`: the id is the one that the database makes
unfoldable pub enqueue_event : ℕ → ℕ → OutboxPayload → Table OutboxEvent → Table OutboxEvent
enqueue_event id scheduled_at payload t =
    (
      id,
      record {
        payload = payload;
        status = OutboxStatus.pending;
        retries = 0;
        scheduled_at = scheduled_at;
      },
    )
    ∷ t

-- `succeeds` tells how the consumer of an event ends: normally, or by a throw.
module _ (succeeds : OutboxPayload → Bool) (now : ℕ) where
  unfoldable pub process_event : ℕ → OutboxEvent → Table OutboxEvent → Table OutboxEvent
  unfolding mark_completed mark_failed
  process_event id e t =
      if succeeds e.payload then mark_completed id t else mark_failed now id e.retries t

  unfoldable pub process_each : Table OutboxEvent → Table OutboxEvent → Table OutboxEvent
  unfolding process_event
  process_each [] t = t
  process_each ((id, e) ∷ rest) t = process_each rest (process_event id e t)

  -- one turn of the worker, with the default limit of `claimBatch`
  unfoldable pub tick : Table OutboxEvent → Table OutboxEvent
  unfolding claim_batch process_each
  tick t = let (events, started) = claim_batch 20 now t in process_each events started
