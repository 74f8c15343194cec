-- ===== src/Assignments/Transitions.antt =====
-- The table of allowed transitions (src/assignments/assignment-transitions.ts) and the checks on a
-- replacement in progress (src/assignments/replacement-invariants.ts) and on an early release
-- (src/assignments/early-release.util.ts).
use guardian_backend_service.Prelude.{
  Bool, false, Option, none, some, List, [], ◌∷◌, includes, not, ◌===◌, ◌&&◌, if◌then◌else◌,
}
use guardian_backend_service.Prelude.Effect.{
  Result, ok, err, departing_not_awaiting_relief, substitute_status, transition_refused,
}
use guardian_backend_service.Data.{
  AssignmentStatus, assignment_eq, offered, accepted, declined, expired, en_route, on_site,
  early_release_requested, replacement_requested, awaiting_relief, no_show, EarlyReleaseResolution,
  early_release_eq, BillingPolicyModel,
}

unfoldable pub allowed_transitions : AssignmentStatus → List AssignmentStatus
allowed_transitions offered = accepted ∷ declined ∷ expired ∷ AssignmentStatus.cancelled ∷ []
allowed_transitions accepted = en_route ∷ no_show ∷ AssignmentStatus.cancelled ∷ []
allowed_transitions en_route = on_site ∷ no_show ∷ AssignmentStatus.cancelled ∷ []
allowed_transitions on_site =
    AssignmentStatus.completed ∷ early_release_requested ∷ replacement_requested
    ∷ AssignmentStatus.cancelled ∷ []
allowed_transitions early_release_requested =
    AssignmentStatus.completed ∷ on_site ∷ AssignmentStatus.cancelled ∷ []
allowed_transitions replacement_requested =
    on_site ∷ awaiting_relief ∷ AssignmentStatus.cancelled ∷ []
allowed_transitions awaiting_relief = AssignmentStatus.completed ∷ AssignmentStatus.cancelled ∷ []
allowed_transitions AssignmentStatus.completed = []
allowed_transitions declined = []
allowed_transitions expired = []
allowed_transitions no_show = []
allowed_transitions AssignmentStatus.cancelled = []

unfoldable pub assert_assignment_transition_allowed :
    AssignmentStatus → AssignmentStatus → Result (Unit {0})
unfolding allowed_transitions
assert_assignment_transition_allowed from to =
    if not (includes (allowed_transitions from) to) then err transition_refused else ok tt

abbrev pub replacement_pipeline_statuses : List AssignmentStatus
replacement_pipeline_statuses = offered ∷ accepted ∷ en_route ∷ []

-- the status of the substitute, if there is one
abbrev pub check_substitute : Option AssignmentStatus → Result (Unit {0})
check_substitute none = ok tt
check_substitute (some s) =
    if not (includes replacement_pipeline_statuses s) then err substitute_status else ok tt

unfoldable pub assert_seeking_replacement_state :
    Option AssignmentStatus → Option AssignmentStatus → Result (Unit {0})
assert_seeking_replacement_state none substitute = err departing_not_awaiting_relief
assert_seeking_replacement_state (some departing) substitute =
    if not (departing === awaiting_relief)
    then err departing_not_awaiting_relief
    else check_substitute substitute

abbrev pub early_release_approved_resolutions : List EarlyReleaseResolution
early_release_approved_resolutions =
    EarlyReleaseResolution.approved ∷ EarlyReleaseResolution.auto_approved ∷ []

abbrev pub is_early_release_approved : Option EarlyReleaseResolution → Bool
is_early_release_approved none = false
is_early_release_approved (some r) = includes early_release_approved_resolutions r

unfoldable pub effective_billing_model_for_invoice :
    BillingPolicyModel → Bool → Bool → BillingPolicyModel
effective_billing_model_for_invoice BillingPolicyModel.booked_block approved proration =
    if approved && proration
    then BillingPolicyModel.actual_time
    else BillingPolicyModel.booked_block
effective_billing_model_for_invoice model approved proration = model
