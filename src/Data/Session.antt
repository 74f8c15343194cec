-- ===== src/Data/Session.antt =====
-- The database and its transactions. A statement on `this.prisma` commits at once. In
-- `this.prisma.$transaction(async (tx) => …)` the statements on `tx` are taken back by a throw, and
-- a statement on `this.prisma` is not: it runs on a connection of its own. The new state of the
-- logs stands first. `present` lists the guardians
-- whose presence is live, and marked available, in Redis. The clock is read once per request: `now`.
use guardian_backend_service.Prelude.{ℕ, Option, none, some, List, ◌∷◌, String}
use guardian_backend_service.Prelude.Table.{Table, find, modify}
use guardian_backend_service.Prelude.Effect.{Result, ok, err, St, record_missing}
use guardian_backend_service.Data.Rows.{
  Assignment, Job, ShiftState, Guardian, PayPolicy, StatusChange, OutboxPayload, OutboxEvent,
  OutboxStatus, AuditEntry, Notice,
}
use guardian_backend_service.Data.Money.{Ledger}

pub record Store : Type 0 where
  pub now : ℕ
  pub assignments : Table Assignment
  pub jobs : Table Job
  pub shift_states : Table ShiftState
  pub guardians : Table Guardian
  pub pay_policies : List PayPolicy
  pub members : List (ℕ × ℕ)
  pub history : List StatusChange
  pub outbox : List OutboxEvent
  pub audits : List AuditEntry
  pub notices : List Notice
  pub no_show_counts : List (ℕ × ℕ × ℕ)
  pub expiry_timers : List ℕ
  pub present : List ℕ
  pub dispatch_audits : List (ℕ × String)
  pub ledger : Ledger

abbrev pub Action : Type 0 → Type 0
Action A = St Store A

-- a transaction that is open: what it sees, and what a rollback goes back to
pub record Session : Type 0 where
  pub live : Store
  pub base : Store

abbrev pub Tx : Type 0 → Type 0
Tx A = St Session A

module _ {A : Type 0} where
  -- a statement on `tx`
  unfoldable pub on_tx : Action A → Tx A
  on_tx m t = let (r, s) = m t.live in (r, record t { live = s })

  -- a statement on `this.prisma` while the transaction is open: it is committed, and seen by the
  -- statements that follow
  unfoldable pub on_pool : Action A → Tx A
  on_pool m t = ((m t.base).0, record { live = (m t.live).1; base = (m t.base).1 })

  abbrev pub close : Result A × Session → Result A × Store
  close (ok a, t) = (ok a, t.live)
  close (err e, t) = (err e, t.base)

  -- `$transaction`
  unfoldable pub transaction : Tx A → Action A
  unfolding on_tx on_pool
  transaction body s = close (body (record { live = s; base = s }))

  -- a transaction all of whose writes are on `tx`
  unfoldable pub atomic : Action A → Action A
  unfolding transaction
  atomic m = transaction (on_tx m)

unfoldable pub find_assignment : ℕ → Action (Option Assignment)
find_assignment id s = (ok (find id s.assignments), s)

unfoldable pub find_job : ℕ → Action (Option Job)
find_job id s = (ok (find id s.jobs), s)

-- `include: { job: true }`. The foreign key gives every assignment its job.
abbrev pub join : Option Assignment → Table Job → Option (Assignment × Job)
join none jobs = none
join (some a) jobs = elim (find a.job_id jobs) [ none ↦ none | some j ↦ some (a, j) ]

unfoldable pub find_with_job : ℕ → Action (Option (Assignment × Job))
find_with_job id s = (ok (join (find id s.assignments) s.jobs), s)

-- `update({ where: { id }, data })` throws where there is no row.
unfoldable pub update_assignment : ℕ → (Assignment → Assignment) → Action Assignment
update_assignment id f s = elim (find id s.assignments) [
  | none ↦ (err record_missing, s)
  | some a ↦ (ok (f a), record s { assignments = modify id f s.assignments })
]

unfoldable pub update_job : ℕ → (Job → Job) → Action (Unit {0})
update_job id f s = elim (find id s.jobs) [
  | none ↦ (err record_missing, s)
  | some j ↦ (ok tt, record s { jobs = modify id f s.jobs })
]

unfoldable pub update_shift : ℕ → (ShiftState → ShiftState) → Action (Unit {0})
update_shift id f s = elim (find id s.shift_states) [
  | none ↦ (err record_missing, s)
  | some w ↦ (ok tt, record s { shift_states = modify id f s.shift_states })
]

-- `AuditService.log`
unfoldable pub audit_log : Option ℕ → String → ℕ → Action (Unit {0})
audit_log actor action id s = (
  ok tt,
  record s {
    audits = record { actor_user_id = actor; action = action; entity_id = id } ∷ s.audits;
  },
)

-- `OutboxService.enqueue` with a `scheduledAt`
unfoldable pub enqueue_at : ℕ → OutboxPayload → Action (Unit {0})
enqueue_at t p s = (
  ok tt,
  record s {
    outbox =
        record { payload = p; status = OutboxStatus.pending; retries = 0; scheduled_at = t }
        ∷ s.outbox;
  },
)

-- `OutboxService.enqueue` and `enqueueInTransaction`, with no `scheduledAt`
unfoldable pub enqueue : OutboxPayload → Action (Unit {0})
enqueue p s = (
  ok tt,
  record s {
    outbox =
        record { payload = p; status = OutboxStatus.pending; retries = 0; scheduled_at = s.now }
        ∷ s.outbox;
  },
)

-- `dispatchAuditLog.create`: the job and the event
unfoldable pub write_dispatch_audit : ℕ → String → Action (Unit {0})
write_dispatch_audit job event s =
    (ok tt, record s { dispatch_audits = (job, event) ∷ s.dispatch_audits })

unfoldable pub notify : Notice → Action (Unit {0})
notify n s = (ok tt, record s { notices = n ∷ s.notices })
