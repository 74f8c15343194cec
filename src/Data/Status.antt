-- ===== src/Data/Status.antt =====
-- The enumerations of prisma/schema.prisma and their equality tests (`===`, `includes`, `Set.has`).
use guardian_backend_service.Prelude.{ℕ, ◌≡◌, ◌↔◌, Bool, true, arith, ◌==◌, Eq}

pub data AssignmentStatus : Type 0 where
  offered accepted declined expired en_route on_site : AssignmentStatus
  early_release_requested replacement_requested awaiting_relief : AssignmentStatus
  completed no_show cancelled : AssignmentStatus

pub data JobStatus : Type 0 where
  pending dispatching partially_assigned assigned in_progress : JobStatus
  seeking_replacement awaiting_confirmation completed failed cancelled : JobStatus

pub data ShiftStatus : Type 0 where
  available busy paused off_duty suspended : ShiftStatus

pub data EarlyReleaseResolution : Type 0 where
  approved rejected auto_approved : EarlyReleaseResolution

pub data ReplacementResolution : Type 0 where
  approved denied : ReplacementResolution

pub data PayPolicyModel : Type 0 where
  actual_time minimum_guaranteed : PayPolicyModel

pub data BillingPolicyModel : Type 0 where
  booked_block actual_time minimum_guaranteed : BillingPolicyModel

pub data NoShowTriggerType : Type 0 where
  manual system : NoShowTriggerType

pub data RoleCode : Type 0 where
  super_admin ops_admin client_owner client_staff guardian : RoleCode

abbrev pub assignment_rank : AssignmentStatus → ℕ
assignment_rank AssignmentStatus.offered = 0
assignment_rank AssignmentStatus.accepted = 1
assignment_rank AssignmentStatus.declined = 2
assignment_rank AssignmentStatus.expired = 3
assignment_rank AssignmentStatus.en_route = 4
assignment_rank AssignmentStatus.on_site = 5
assignment_rank AssignmentStatus.early_release_requested = 6
assignment_rank AssignmentStatus.replacement_requested = 7
assignment_rank AssignmentStatus.awaiting_relief = 8
assignment_rank AssignmentStatus.completed = 9
assignment_rank AssignmentStatus.no_show = 10
assignment_rank AssignmentStatus.cancelled = 11

abbrev pub same_assignment : AssignmentStatus → AssignmentStatus → Bool
same_assignment a b = assignment_rank a == assignment_rank b

pub same_assignment_iff : (a b : AssignmentStatus) → (same_assignment a b ≡ true) ↔ (a ≡ b)
same_assignment_iff a b = (λ h. ground arith, λ h. ground arith)

instance abbrev pub assignment_eq : Eq AssignmentStatus
assignment_eq = record { beq = same_assignment; beq_iff = same_assignment_iff }

abbrev pub job_rank : JobStatus → ℕ
job_rank JobStatus.pending = 0
job_rank JobStatus.dispatching = 1
job_rank JobStatus.partially_assigned = 2
job_rank JobStatus.assigned = 3
job_rank JobStatus.in_progress = 4
job_rank JobStatus.seeking_replacement = 5
job_rank JobStatus.awaiting_confirmation = 6
job_rank JobStatus.completed = 7
job_rank JobStatus.failed = 8
job_rank JobStatus.cancelled = 9

abbrev pub same_job : JobStatus → JobStatus → Bool
same_job a b = job_rank a == job_rank b

pub same_job_iff : (a b : JobStatus) → (same_job a b ≡ true) ↔ (a ≡ b)
same_job_iff a b = (λ h. ground arith, λ h. ground arith)

instance abbrev pub job_eq : Eq JobStatus
job_eq = record { beq = same_job; beq_iff = same_job_iff }

abbrev pub shift_rank : ShiftStatus → ℕ
shift_rank ShiftStatus.available = 0
shift_rank ShiftStatus.busy = 1
shift_rank ShiftStatus.paused = 2
shift_rank ShiftStatus.off_duty = 3
shift_rank ShiftStatus.suspended = 4

abbrev pub same_shift : ShiftStatus → ShiftStatus → Bool
same_shift a b = shift_rank a == shift_rank b

pub same_shift_iff : (a b : ShiftStatus) → (same_shift a b ≡ true) ↔ (a ≡ b)
same_shift_iff a b = (λ h. ground arith, λ h. ground arith)

instance abbrev pub shift_eq : Eq ShiftStatus
shift_eq = record { beq = same_shift; beq_iff = same_shift_iff }

abbrev pub early_release_rank : EarlyReleaseResolution → ℕ
early_release_rank EarlyReleaseResolution.approved = 0
early_release_rank EarlyReleaseResolution.rejected = 1
early_release_rank EarlyReleaseResolution.auto_approved = 2

abbrev pub same_early_release : EarlyReleaseResolution → EarlyReleaseResolution → Bool
same_early_release a b = early_release_rank a == early_release_rank b

pub same_early_release_iff :
    (a b : EarlyReleaseResolution) → (same_early_release a b ≡ true) ↔ (a ≡ b)
same_early_release_iff a b = (λ h. ground arith, λ h. ground arith)

instance abbrev pub early_release_eq : Eq EarlyReleaseResolution
early_release_eq = record { beq = same_early_release; beq_iff = same_early_release_iff }

abbrev pub role_rank : RoleCode → ℕ
role_rank RoleCode.super_admin = 0
role_rank RoleCode.ops_admin = 1
role_rank RoleCode.client_owner = 2
role_rank RoleCode.client_staff = 3
role_rank RoleCode.guardian = 4

abbrev pub same_role : RoleCode → RoleCode → Bool
same_role a b = role_rank a == role_rank b

pub same_role_iff : (a b : RoleCode) → (same_role a b ≡ true) ↔ (a ≡ b)
same_role_iff a b = (λ h. ground arith, λ h. ground arith)

instance abbrev pub role_eq : Eq RoleCode
role_eq = record { beq = same_role; beq_iff = same_role_iff }
