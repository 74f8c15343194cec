-- ===== src/Outbox/Laws.antt =====
-- What the worker of src/outbox/outbox.worker.ts does to the events.
use guardian_backend_service.Prelude.{
  ℕ, zero, suc, ◌≤◌, ◌≡◌, refl, Bool, true, false, Option, none, some, List, [], ◌∷◌, ◌==◌, ◌&&◌,
  includes, nat_eq, if◌then◌else◌, arith,
}
use guardian_backend_service.Prelude.Table.{Table, find, select_where}
use guardian_backend_service.Prelude.Table.Laws.{find-modify, map_option, HasKeys}
use guardian_backend_service.Data.{OutboxPayload, OutboxEvent, OutboxStatus, outbox_eq}
use guardian_backend_service.Outbox.{
  is_due, insert_by_time, sort_by_time, first_ids, start_processing, rows_with, claimed_ids,
  claim_batch, process_event, process_each, mark_completed, mark_failed, failed_event, tick,
}

-- a row with the id is due
abbrev has_due : ℕ → ℕ → Table OutboxEvent → Bool
has_due now k [] = false
has_due now k ((id, e) ∷ t) = if id == k && is_due now e then true else has_due now k t

abbrev has_row : ℕ → Table OutboxEvent → Bool
has_row k [] = false
has_row k ((id, e) ∷ t) = if id == k then true else has_row k t

has_row-select :
    (now k : ℕ) (t : Table OutboxEvent) → has_row k (select_where (is_due now) t) ≡ has_due now k t
unfolding select_where
has_row-select now k [] = refl
has_row-select now k ((id, e) ∷ t) = ground (arith, has_row-select now k t)

has_row-insert :
    (k id : ℕ) (e : OutboxEvent) (t : Table OutboxEvent)
    → has_row k (insert_by_time (id, e) t) ≡ (if id == k then true else has_row k t)
unfolding insert_by_time
has_row-insert k id e [] = refl
has_row-insert k id e ((j, f) ∷ t) = ground (arith, has_row-insert k id e t)

has_row-sort : (k : ℕ) (t : Table OutboxEvent) → has_row k (sort_by_time t) ≡ has_row k t
unfolding sort_by_time
has_row-sort k [] = refl
has_row-sort k ((id, e) ∷ t) =
    ground (arith, has_row-insert k id e (sort_by_time t), has_row-sort k t)

first_ids-has_row :
    (k n : ℕ) (t : Table OutboxEvent) → includes (first_ids n t) k ≡ true → has_row k t ≡ true
unfolding first_ids
first_ids-has_row k zero t h = cc
first_ids-has_row k (suc n) [] h = cc
first_ids-has_row k (suc n) ((id, e) ∷ t) h = ground (arith, first_ids-has_row k n t)

-- Only an event that is due is claimed.
claimed_ids-has_due :
    (k n now : ℕ) (t : Table OutboxEvent)
    → includes (claimed_ids n now t) k ≡ true
    → has_due now k t ≡ true
unfolding claimed_ids
claimed_ids-has_due k n now t h = ground (
  arith,
  has_row-select now k t,
  has_row-sort k (select_where (is_due now) t),
  first_ids-has_row k n (sort_by_time (select_where (is_due now) t)) h,
)

no_due : (now k : ℕ) (t : Table OutboxEvent) → find k t ≡ none → has_due now k t ≡ false
unfolding find
no_due now k [] h = refl
no_due now k ((id, e) ∷ t) h = ground (arith, no_due now k t)

keyed-has_due :
    (now k : ℕ) (t : Table OutboxEvent) (e : OutboxEvent)
    → HasKeys t
    → find k t ≡ some e
    → has_due now k t ≡ is_due now e
unfolding find
keyed-has_due now k [] e keyed h = cc
keyed-has_due now k ((id, f) ∷ t) e (fresh, keyed) h =
    ground (arith, no_due now k t, keyed-has_due now k t e keyed)

abbrev started : Bool → OutboxEvent → OutboxEvent
started true e = record e { status = OutboxStatus.processing }
started false e = e

find-start_processing :
    (k : ℕ) (ids : List ℕ) (t : Table OutboxEvent)
    → find k (start_processing ids t) ≡ map_option (started (includes ids k)) (find k t)
unfolding find start_processing
find-start_processing k ids [] = refl
find-start_processing k ids ((id, e) ∷ t) = ground (arith, find-start_processing k ids t)

pub start_processing-HasKeys :
    (ids : List ℕ) (t : Table OutboxEvent) → HasKeys t → HasKeys (start_processing ids t)
unfolding start_processing
start_processing-HasKeys ids [] h = tt
start_processing-HasKeys ids ((id, e) ∷ t) (fresh, keyed) =
    grind (arith, find-start_processing id ids t, start_processing-HasKeys ids t keyed)

-- the rows that are read back
find-rows_with :
    (k : ℕ) (ids : List ℕ) (t : Table OutboxEvent)
    → find k (rows_with ids t) ≡ (if includes ids k then find k t else none)
unfolding find rows_with
find-rows_with k ids [] = ground arith
find-rows_with k ids ((id, e) ∷ t) = ground (arith, find-rows_with k ids t)

rows_with-HasKeys : (ids : List ℕ) (t : Table OutboxEvent) → HasKeys t → HasKeys (rows_with ids t)
unfolding rows_with
rows_with-HasKeys ids [] h = tt
rows_with-HasKeys ids ((id, e) ∷ t) (fresh, keyed) =
    by_claim (includes ids id) (rows_with-HasKeys ids t keyed)
      (ground (arith, find-rows_with id ids t))
  where
    by_claim :
        (b : Bool)
        → HasKeys (rows_with ids t)
        → find id (rows_with ids t) ≡ none
        → HasKeys (if b then (id, e) ∷ rows_with ids t else rows_with ids t)
    by_claim true h g = (g, h)
    by_claim false h g = h

module _ (succeeds : OutboxPayload → Bool) (now : ℕ) where
  -- what becomes of an event that is processed
  abbrev pub settle : OutboxEvent → OutboxEvent
  settle e =
      if succeeds e.payload
      then record e { status = OutboxStatus.completed }
      else failed_event now e.retries e

  -- what becomes of the row of an event, when the row is read back as `f`
  abbrev settled_by : Option OutboxEvent → OutboxEvent → OutboxEvent
  settled_by none e = e
  settled_by (some f) e =
      if succeeds f.payload
      then record e { status = OutboxStatus.completed }
      else failed_event now f.retries e

  find-process_event :
      (k id : ℕ) (f : OutboxEvent) (t : Table OutboxEvent)
      → find k (process_event succeeds now id f t)
        ≡ (if id == k then map_option (settled_by (some f)) (find k t) else find k t)
  unfolding process_event mark_completed mark_failed
  find-process_event k id f t = grind (arith, find-modify)

  find-process_each :
      (k : ℕ) (events t : Table OutboxEvent)
      → HasKeys events
      → find k (process_each succeeds now events t)
        ≡ map_option (settled_by (find k events)) (find k t)
  unfolding find process_each
  find-process_each k [] t h = ground arith
  find-process_each k ((id, f) ∷ rest) t (fresh, keyed) = ground (
    arith,
    find-process_event k id f t,
    find-process_each k rest (process_event succeeds now id f t) keyed,
  )

  -- One turn of the worker settles the events that it claims, each by how its consumer ended, and
  -- leaves every other event as it is, when ids are unique.
  pub find-tick :
      (k : ℕ) (t : Table OutboxEvent)
      → HasKeys t
      → find k (tick succeeds now t)
        ≡ map_option (λ e. if includes (claimed_ids 20 now t) k then settle e else e) (find k t)
  unfolding tick claim_batch
  find-tick k t keyed =
      let ids = claimed_ids 20 now t in
      let started_table = start_processing ids t in
      ground (
        arith,
        find-process_each k (rows_with ids started_table) started_table
            (rows_with-HasKeys ids started_table (start_processing-HasKeys ids t keyed)),
        find-rows_with k ids started_table,
        find-start_processing k ids t,
      )

  -- An event that is not due keeps its row.
  pub tick-not_due :
      (k : ℕ) (t : Table OutboxEvent) (e : OutboxEvent)
      → HasKeys t
      → find k t ≡ some e
      → is_due now e ≡ false
      → find k (tick succeeds now t) ≡ some e
  tick-not_due k t e keyed row late = ground (
    arith,
    find-tick k t keyed,
    claimed_ids-has_due k 20 now t,
    keyed-has_due now k t e keyed row,
  )

-- What is claimed is PENDING, and its time has come, when ids are unique.
pub claimed_is_due :
    (now k : ℕ) (t : Table OutboxEvent) (e : OutboxEvent)
    → HasKeys t
    → find k t ≡ some e
    → includes (claimed_ids 20 now t) k ≡ true
    → (e.status ≡ OutboxStatus.pending) × (e.scheduled_at ≤ now)
claimed_is_due now k t e keyed row h =
    ground (arith, claimed_ids-has_due k 20 now t h, keyed-has_due now k t e keyed row)
