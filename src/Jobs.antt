-- ===== src/Jobs.antt =====
-- The life of a job: its status transitions (src/jobs/job-lifecycle.service.ts), its staffing
-- (src/jobs/job-staffing.util.ts, job-staffing.service.ts), the requests that dispatch, cancel and
-- complete it (src/jobs/jobs.service.ts), and the scans (src/jobs/job-status-reconciliation.service.ts).
pub mod Lifecycle
pub mod Progress
pub mod Staffing
pub mod Frame
pub mod History
pub mod Filled
pub mod Requests
pub mod Reconciliation
pub mod Cancelled
pub mod Departed
pub mod Closed
