-- ===== src/Outbox/Failures.antt =====
-- What becomes of a failed event (src/outbox/outbox.service.ts): `markFailed` gives it a time for
-- the next attempt, and `claimBatch` asks for events in PENDING only.
use guardian_backend_service.Prelude.{
  ℕ, ◌≡◌, ◌≢◌, ◌⊎◌, refl, Bool, true, false, Option, none, some, [], ◌∷◌, includes, nat_eq,
  if◌then◌else◌, arith,
}
use guardian_backend_service.Prelude.Table.{Table, find, modify}
use guardian_backend_service.Prelude.Table.Laws.{HasKeys, modify-HasKeys}
use guardian_backend_service.Data.{OutboxPayload, OutboxEvent, OutboxStatus, outbox_eq}
use guardian_backend_service.Outbox.{
  claimed_ids, claim_batch, process_event, process_each, mark_completed, mark_failed, failed_event,
  tick, enqueue_event,
}
use guardian_backend_service.Outbox.Laws.{
  settle, find-tick, tick-not_due, start_processing-HasKeys, claimed_is_due,
}

-- what happens to the table: an event with a new id, or a turn of the worker
pub data Trace (s : Table OutboxEvent) : Table OutboxEvent → Type 0 where
  start : Trace s s
  enqueued :
      {t : Table OutboxEvent}
      → Trace s t
      → (id scheduled_at : ℕ) (payload : OutboxPayload) → find id t ≡ none
      → Trace s (enqueue_event id scheduled_at payload t)
  ticked :
      {t : Table OutboxEvent}
      → Trace s t
      → (succeeds : OutboxPayload → Bool) (now : ℕ) → Trace s (tick succeeds now t)

module _ (succeeds : OutboxPayload → Bool) (now : ℕ) where
  process_each-HasKeys :
      (events t : Table OutboxEvent) → HasKeys t → HasKeys (process_each succeeds now events t)
  unfolding process_each process_event mark_completed mark_failed
  process_each-HasKeys [] t h = h
  process_each-HasKeys ((id, f) ∷ rest) t h =
      process_each-HasKeys rest _ (by_end (succeeds f.payload))
    where
      by_end :
          (b : Bool)
          → HasKeys (
              if b
              then modify id (λ e. record e { status = OutboxStatus.completed }) t
              else modify id (failed_event now f.retries) t)
      by_end true = modify-HasKeys id _ t h
      by_end false = modify-HasKeys id _ t h

  tick-HasKeys : (t : Table OutboxEvent) → HasKeys t → HasKeys (tick succeeds now t)
  unfolding tick claim_batch
  tick-HasKeys t h =
      process_each-HasKeys (claim_batch 20 now t).0 (claim_batch 20 now t).1
        (start_processing-HasKeys (claimed_ids 20 now t) t h)

Trace-HasKeys : {s t : Table OutboxEvent} → Trace s t → HasKeys s → HasKeys t
unfolding enqueue_event
Trace-HasKeys start h = h
Trace-HasKeys (enqueued r id at payload fresh) h = (fresh, Trace-HasKeys r h)
Trace-HasKeys (ticked r succeeds now) h = tick-HasKeys succeeds now _ (Trace-HasKeys r h)

find-enqueue :
    (k id at : ℕ) (payload : OutboxPayload) (t : Table OutboxEvent) (e : OutboxEvent)
    → find id t ≡ none
    → find k t ≡ some e
    → find k (enqueue_event id at payload t) ≡ some e
unfolding find enqueue_event
find-enqueue k id at payload t e fresh row = ground arith

-- An event that has failed is never claimed again: whatever is enqueued and however often the
-- worker runs, its row stays FAILED with the time of a next attempt that is not made. Ids are unique.
pub failed_event_stays :
    {s t : Table OutboxEvent} (k : ℕ) (e : OutboxEvent)
    → Trace s t
    → HasKeys s
    → find k s ≡ some e
    → e.status ≡ OutboxStatus.failed
    → find k t ≡ some e
failed_event_stays k e start keyed row failed = row
failed_event_stays k e (enqueued {t = t} r id at payload fresh) keyed row failed =
    find-enqueue k id at payload t e fresh (failed_event_stays k e r keyed row failed)
failed_event_stays k e (ticked {t = t} r succeeds now) keyed row failed =
    tick-not_due succeeds now k t e (Trace-HasKeys r keyed)
      (failed_event_stays k e r keyed row failed) (ground arith)

-- no attempt has failed, or one has and no other follows
abbrev pub IsOnceTried : OutboxEvent → Type 0
IsOnceTried e =
    ((e.retries ≡ 0) × (e.status ≢ OutboxStatus.dead_letter))
    ⊎ ((e.retries ≡ 1) × (e.status ≡ OutboxStatus.failed))

settle-IsOnceTried :
    (succeeds : OutboxPayload → Bool) (now : ℕ) (e : OutboxEvent)
    → e.status ≡ OutboxStatus.pending
    → IsOnceTried e
    → IsOnceTried (settle succeeds now e)
settle-IsOnceTried succeeds now e h g = ground arith

abbrev AllOnceTried : Table OutboxEvent → Type 0
AllOnceTried t = (k : ℕ) (e : OutboxEvent) → find k t ≡ some e → IsOnceTried e

tick-AllOnceTried :
    (succeeds : OutboxPayload → Bool) (now : ℕ) (t : Table OutboxEvent)
    → HasKeys t
    → AllOnceTried t
    → AllOnceTried (tick succeeds now t)
tick-AllOnceTried succeeds now t keyed all k e row =
    by_row (find k t) refl (includes (claimed_ids 20 now t) k) refl
  where
    by_row :
        (o : Option OutboxEvent)
        → find k t ≡ o
        → (b : Bool) → includes (claimed_ids 20 now t) k ≡ b
        → IsOnceTried e
    by_row none h b c = ground (arith, find-tick succeeds now k t keyed)
    by_row (some f) h true c = grind (
      arith,
      find-tick succeeds now k t keyed,
      claimed_is_due now k t f keyed h c,
      settle-IsOnceTried succeeds now f,
      all k f h,
    )
    by_row (some f) h false c = grind (arith, find-tick succeeds now k t keyed, all k f h)

-- From an empty table no event reaches DEAD_LETTER, and no event counts a second attempt.
pub no_dead_letter :
    {t : Table OutboxEvent}
    → Trace [] t
    → (k : ℕ) (e : OutboxEvent) → find k t ≡ some e
    → IsOnceTried e
unfolding find enqueue_event
no_dead_letter start k e row = cc
no_dead_letter (enqueued {t = t} r id at payload fresh) k e row =
    ground (arith, no_dead_letter r k e)
no_dead_letter (ticked {t = t} r succeeds now) k e row =
    tick-AllOnceTried succeeds now t (Trace-HasKeys r tt) (no_dead_letter r) k e row
