-- ===== src/Data/Rows.antt =====
-- The rows that the job workflow reads and writes (prisma/schema.prisma). A time is in
-- milliseconds, a rate or a number of hours that is a Decimal(_, 2) in hundredths, an id is a
-- number. A district is its normal form, trimmed and in lower case, which is only compared: a number,
-- which a job has from its location; `district_name` is the district as it is written there. The columns that no modelled code reads are left out.
use guardian_backend_service.Prelude.{
  ℕ, Bool, true, Option, String, List, Eq, ◌≡◌, ◌↔◌, ◌==◌, arith,
}
use guardian_backend_service.Data.Status.{
  AssignmentStatus, JobStatus, ShiftStatus, EarlyReleaseResolution, ReplacementResolution,
  PayPolicyModel, BillingPolicyModel, NoShowTriggerType, RoleCode,
}

pub data DispatchFailureReason : Type 0 where
  dispatch_timeout dispatch_pool_exhausted dispatch_no_eligible_guardians : DispatchFailureReason
  dispatch_unreachable_pool dispatch_max_offers_exceeded : DispatchFailureReason
  replacement_dispatch_exhausted replacement_dispatch_timeout : DispatchFailureReason

pub data NoShowReasonCode : Type 0 where
  client_unreachable client_cancelled_at_door access_blocked : NoShowReasonCode
  client_not_present safety_risk other : NoShowReasonCode

pub record Assignment : Type 0 where
  pub job_id : ℕ
  pub guardian_id : ℕ
  pub status : AssignmentStatus
  pub version_number : ℕ
  pub expires_at : ℕ
  pub accepted_at : Option ℕ
  pub arrived_at : Option ℕ
  pub completed_at : Option ℕ
  pub no_show_reason : Option String
  pub no_show_reason_code : Option NoShowReasonCode
  pub no_show_trigger_type : Option NoShowTriggerType
  pub no_show_reported_by_user_id : Option ℕ
  pub no_show_reported_by_role : Option RoleCode
  pub no_show_at : Option ℕ
  pub early_release_requested_at : Option ℕ
  pub early_release_reason : Option String
  pub early_release_resolved_at : Option ℕ
  pub early_release_resolution : Option EarlyReleaseResolution
  pub early_release_auto_approve_at : Option ℕ
  pub replacement_requested_at : Option ℕ
  pub replacement_reason : Option String
  pub replacement_resolved_at : Option ℕ
  pub replacement_resolution : Option ReplacementResolution
  pub replacement_resolved_by_user_id : Option ℕ
  pub replaces_assignment_id : Option ℕ
  pub pay_policy_model : Option PayPolicyModel
  pub pay_minimum_hours : Option ℕ
  pub pay_policy_resolved_at : Option ℕ
  pub hourly_pay_rate_at_commit : Option ℕ
  pub pay_apply_on_early_release : Option Bool

pub record Job : Type 0 where
  pub organization_id : ℕ
  pub job_type : ℕ
  pub status : JobStatus
  pub requested_guardian_count : ℕ
  pub scheduled_start : ℕ
  pub scheduled_end : ℕ
  pub dispatch_deadline_at : Option ℕ
  pub dispatch_started_at : Option ℕ
  pub dispatch_failure_reason : Option DispatchFailureReason
  pub unreachable_since : Option ℕ
  pub offers_sent_count : ℕ
  pub dispatch_attempts : ℕ
  pub district : ℕ
  pub district_name : ℕ
  pub billing_policy_model : Option BillingPolicyModel
  pub billing_minimum_hours : Option ℕ
  pub billing_allow_early_release : Option Bool
  pub billing_proration_enabled : Option Bool
  pub billing_early_release_requires_client_approval : Option Bool
  pub billing_auto_approve_after_minutes : Option ℕ
  pub replacement_departing_assignment_id : Option ℕ

pub record ShiftState : Type 0 where
  pub shift_status : ShiftStatus
  pub available_for_jobs : Bool
  pub shift_started_at : Option ℕ
  pub shift_ends_at : Option ℕ

-- `verificationStatus === VERIFIED`, and the expiry date
pub record Certification : Type 0 where
  pub is_verified : Bool
  pub expiry_date : Option ℕ

-- `status === ACTIVE`, `verificationStatus === VERIFIED`, the certifications, the terms of pay, and
-- the district of the base with those that are covered
pub record Guardian : Type 0 where
  pub is_active : Bool
  pub is_verified : Bool
  pub certifications : List Certification
  pub employment_type : ℕ
  pub hourly_pay_rate : Option ℕ
  pub pay_currency : String
  pub districts : List ℕ
  pub reliability_score : ℕ

pub record PayPolicy : Type 0 where
  pub job_type : Option ℕ
  pub employment_type : Option ℕ
  pub valid_from : ℕ
  pub valid_until : Option ℕ
  pub priority : ℕ
  pub model : PayPolicyModel
  pub minimum_hours : ℕ
  pub apply_on_early_release : Bool

-- a row of job_status_history
pub record StatusChange : Type 0 where
  pub job_id : ℕ
  pub old_status : Option JobStatus
  pub new_status : JobStatus
  pub changed_by : Option ℕ
  pub reason : Option String

pub data OutboxStatus : Type 0 where
  pending processing completed failed dead_letter : OutboxStatus

abbrev pub outbox_rank : OutboxStatus → ℕ
outbox_rank OutboxStatus.pending = 0
outbox_rank OutboxStatus.processing = 1
outbox_rank OutboxStatus.completed = 2
outbox_rank OutboxStatus.failed = 3
outbox_rank OutboxStatus.dead_letter = 4

abbrev pub same_outbox : OutboxStatus → OutboxStatus → Bool
same_outbox a b = outbox_rank a == outbox_rank b

pub same_outbox_iff : (a b : OutboxStatus) → (same_outbox a b ≡ true) ↔ (a ≡ b)
same_outbox_iff a b = (λ h. ground arith, λ h. ground arith)

instance abbrev pub outbox_eq : Eq OutboxStatus
outbox_eq = record { beq = same_outbox; beq_iff = same_outbox_iff }

-- the events that the workflow enqueues: their type with their payload
pub data OutboxPayload : Type 0 where
  dispatch_job : ℕ → OutboxPayload
  dispatch_refill : ℕ → OutboxPayload
  dispatch_replacement : ℕ → Bool → OutboxPayload
  billing_auto_confirm : ℕ → OutboxPayload

pub record OutboxEvent : Type 0 where
  pub payload : OutboxPayload
  pub status : OutboxStatus
  pub retries : ℕ
  pub scheduled_at : ℕ

pub record AuditEntry : Type 0 where
  pub actor_user_id : Option ℕ
  pub action : String
  pub entity_id : ℕ

-- a call of EmailNotificationService or NotificationsService: to whom, which template or title,
-- about which entity
pub data Notice : Type 0 where
  email_org_owners in_app_org_owners in_app_guardian : ℕ → String → ℕ → Notice
  email_guardian : ℕ → String → ℕ → Notice
  email_ops_admins in_app_ops_admins : String → ℕ → Notice

pub record AuthUser : Type 0 where
  pub sub : ℕ
  pub roles : List RoleCode
  pub guardian_id : Option ℕ
  pub active_org_id : Option ℕ
  pub org_id : Option ℕ
  pub organization_ids : List ℕ
