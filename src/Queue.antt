-- ===== src/Queue.antt =====
-- The timers of QueueService (src/queue/queue.service.ts): the ids of the offers that are to expire.
use guardian_backend_service.Prelude.{ℕ, ◌∷◌, ◌==◌, not, select}
use guardian_backend_service.Prelude.Effect.{ok}
use guardian_backend_service.Data.{Action}

unfoldable pub schedule_offer_expiry : ℕ → Action (Unit {0})
schedule_offer_expiry id s = (ok tt, record s { expiry_timers = id ∷ s.expiry_timers })

unfoldable pub cancel_offer_expiry : ℕ → Action (Unit {0})
cancel_offer_expiry id s =
    (ok tt, record s { expiry_timers = select (λ t. not (t == id)) s.expiry_timers })
