-- ===== src/Assignments/Requests.antt =====
-- The requests to AssignmentsService (src/assignments/assignments.controller.ts,
-- src/admin/admin-replacement.service.ts) and the two calls of its timers, and what any sequence
-- of them does to the assignments.
use guardian_backend_service.Prelude.{ℕ, Option, String}
use guardian_backend_service.Data.{AuthUser, Store}
use guardian_backend_service.Assignments.Advance.{Follows, Follows-refl, Follows-trans}
use guardian_backend_service.Assignments.Offers.{accept, decline}
use guardian_backend_service.Assignments.OnSite.{go_en_route, arrive_on_site}
use guardian_backend_service.Assignments.EarlyRelease.{
  request_early_release, approve_early_release, reject_early_release, auto_approve_early_release,
}
use guardian_backend_service.Assignments.Replacement.{
  request_replacement, deny_replacement, approve_replacement,
}
use guardian_backend_service.Assignments.Completion.{Billing, complete}
use guardian_backend_service.Assignments.NoShow.{NoShowInput, apply_no_show}
use guardian_backend_service.Assignments.Handlers.{
  request_replacement-Follows, deny_replacement-Follows, approve_replacement-Follows,
}
use guardian_backend_service.Assignments.Handlers.Release.{
  request_early_release-Follows, approve_early_release-Follows, reject_early_release-Follows,
  auto_approve-Keeps,
}
use guardian_backend_service.Assignments.Handlers.OnSite.{
  go_en_route-Keeps, arrive_on_site-Follows, complete-Follows,
}
use guardian_backend_service.Assignments.Handlers.Offers.{accept-Follows, decline-Follows}
use guardian_backend_service.Assignments.Handlers.NoShow.{IsCommitted, apply_no_show-Follows}

pub data Request : Type 0 where
  accept_offer decline_offer set_en_route set_on_site : ℕ → ℕ → Request
  ask_early_release : ℕ → ℕ → String → Request
  grant_early_release : ℕ → AuthUser → Request
  refuse_early_release : ℕ → AuthUser → Option String → Request
  grant_overdue_release : ℕ → Request
  ask_replacement : ℕ → ℕ → String → Request
  refuse_replacement : ℕ → ℕ → Option String → Request
  grant_replacement : ℕ → ℕ → Request
  finish : ℕ → ℕ → ℕ → Request
  mark_no_show : ℕ → NoShowInput → Request

module _ (billing : Billing) where
  -- the database after a request, however it was answered
  unfoldable pub handle : Request → Store → Store
  handle (Request.accept_offer id guardian) s = (accept id guardian s).1
  handle (Request.decline_offer id guardian) s = (decline id guardian s).1
  handle (Request.set_en_route id guardian) s = (go_en_route id guardian s).1
  handle (Request.set_on_site id guardian) s = (arrive_on_site id guardian s).1
  handle (Request.ask_early_release id guardian reason) s =
      (request_early_release id guardian reason s).1
  handle (Request.grant_early_release id actor) s = (approve_early_release id actor s).1
  handle (Request.refuse_early_release id actor remark) s =
      (reject_early_release id actor remark s).1
  handle (Request.grant_overdue_release id) s = (auto_approve_early_release id s).1
  handle (Request.ask_replacement id guardian reason) s =
      (request_replacement id guardian reason s).1
  handle (Request.refuse_replacement id actor remark) s = (deny_replacement id actor remark s).1
  handle (Request.grant_replacement id actor) s = (approve_replacement id actor s).1
  handle (Request.finish id guardian actor) s = (complete billing id guardian actor s).1
  handle (Request.mark_no_show id input) s = (apply_no_show id input s).1

  -- Only a no-show has a condition: it does not name a mere offer.
  abbrev pub IsRegular : Request → Store → Type 0
  IsRegular (Request.mark_no_show id input) s = IsCommitted id s
  IsRegular _ s = Unit {0}

  pub handle-Follows : (r : Request) (s : Store) → IsRegular r s → Follows s (handle r s)
  unfolding handle
  handle-Follows (Request.accept_offer id guardian) s h = accept-Follows id guardian s
  handle-Follows (Request.decline_offer id guardian) s h = decline-Follows id guardian s
  handle-Follows (Request.set_en_route id guardian) s h = (go_en_route-Keeps id guardian).at s
  handle-Follows (Request.set_on_site id guardian) s h = arrive_on_site-Follows id guardian s
  handle-Follows (Request.ask_early_release id guardian reason) s h =
      request_early_release-Follows id guardian reason s
  handle-Follows (Request.grant_early_release id actor) s h =
      approve_early_release-Follows id actor s
  handle-Follows (Request.refuse_early_release id actor remark) s h =
      reject_early_release-Follows id actor s remark
  handle-Follows (Request.grant_overdue_release id) s h = (auto_approve-Keeps id).at s
  handle-Follows (Request.ask_replacement id guardian reason) s h =
      request_replacement-Follows id guardian reason s
  handle-Follows (Request.refuse_replacement id actor remark) s h =
      deny_replacement-Follows id actor remark s
  handle-Follows (Request.grant_replacement id actor) s h = approve_replacement-Follows id actor s
  handle-Follows (Request.finish id guardian actor) s h =
      complete-Follows billing id guardian actor s
  handle-Follows (Request.mark_no_show id input) s h = apply_no_show-Follows id input s h

  -- a history of requests, each handled in the state that those before it left
  pub data Trace (s : Store) : Store → Type 0 where
    start : Trace s s
    handled : {t : Store} → Trace s t → (r : Request) → IsRegular r t → Trace s (handle r t)

  -- Whatever requests are handled, in whatever order, every assignment stays in the database, its
  -- status moves along a path of the table of allowed transitions, its version number never falls,
  -- and a status that differs stands beside a higher version number; the requests may be refused
  -- or fail half-way, and a no-show among them names an assignment that is not OFFERED then.
  pub Trace-Follows : {s t : Store} → Trace s t → Follows s t
  Trace-Follows {s} start = Follows-refl s
  Trace-Follows {s} (handled {t = t} h r regular) =
      Follows-trans s t (handle r t) (Trace-Follows h) (handle-Follows r t regular)
