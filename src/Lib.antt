-- ===== src/Lib.antt =====
-- The job workflow of the G2 Sentry Guardian backend: a client's job is offered to guardians, who
-- accept, travel, work on site and finish; the job is invoiced, the invoice paid, and the guardians
-- paid out. The services keep the database rows of assignments, jobs, shifts and money in step, and
-- leave events for a worker.
--
-- The parts and where they are modelled:
-- - Prelude: Boolean tests, lists, an equality interface, text, keyed tables (Prelude/Table, laws in
--   Table/Laws), the choice of the best row by priority (Prelude/Priority) and handlers as state
--   passing with errors (Prelude/Effect, rules in Effect/Rules).
-- - Data: the enums (Status) and rows (Rows, Money) of prisma/schema.prisma, and the database with its
--   transactions (Session). A handler is a function from the database to a result and a database.
--   `$transaction` keeps the database as it was beside what it sees: a statement on `tx` is `on_tx`, a
--   statement on `this.prisma` is `on_pool` and outlives a rollback.
-- - Jobs: src/jobs/job-lifecycle.service.ts (Lifecycle), job-staffing.util.ts (Progress),
--   job-staffing.service.ts (Staffing), jobs.service.ts as far as it cancels, dispatches and completes
--   (Requests), job-status-reconciliation.service.ts (Reconciliation); what they leave alone (Frame),
--   the history (History), a full job (Filled), a cancelled one (Closed, Departed,
--   Cancelled).
-- - Guardians: src/guardians/shift-state.service.ts and guardian-eligibility.service.ts (ShiftState),
--   what their shifts keep (Consistency).
-- - Payroll: src/guardian-payroll. guardian-pay-policy.service.ts (PayPolicy), what it picks (Choice);
--   guardian-payroll-calculation.util.ts (Hours); guardian-payroll.service.ts (Earnings, Payouts), with
--   what they keep (Accrued) and what a payout does (Paid).
-- - Dispatching: src/dispatching/dispatching.service.ts; the file itself has the calls that the
--   assignment handlers make, Offers and Release the offers that are made and taken back, Failures the
--   ends of a search, Rounds processDispatch, Requests the other entries. Eligibility is
--   src/guardians/guardian-dispatch-eligibility.service.ts. Proofs: Frame, Slots, Choice, Failure,
--   Certificates.
-- - Queue: the timers of offers (src/queue/queue.service.ts).
-- - Billing: src/billing and src/payments. Calculation is billing-calculation.service.ts, Booking
--   src/common/config/booking-policy.config.ts, Drafts and Invoices billing.service.ts with
--   invoice-status.util.ts, invoice-view.service.ts and billing-confirmation.service.ts, Payments
--   src/payments/payments.service.ts; Requests gathers what a caller can ask for, Tables has the lemmas
--   on the ledger. Edits is an abstract machine of invoices; Edits/Handlers,
--   Edits/Accrual and Steps show that the requests are its
--   steps, and Lifecycle draws the conclusion. Earned and
--   Accruals say what a request does to the earnings, Wages that they belong to paid invoices.
--   Disputes, Repeats, Night and Amounts are about single operations. Service fills the interface `Billing` of the assignment handlers.
-- - Policies: src/common/policies/resource-owner.policy.ts; Setup has primary-location-setup.policy.ts
--   and organization-verification.policy.ts of the same folder.
-- - Assignments: src/assignments. Transitions has the table of assignment-transitions.ts, Update the
--   two optimistic writes; the handlers of assignments.service.ts stand in Offers, OnSite,
--   EarlyRelease, Replacement, Completion and NoShow, the last and EarlyRelease with the automation
--   services; Requests gathers the routes. The theory of a step of an assignment is Advance, of a
--   commit Commits, of a read Reads; Follow and Handlers apply it to each handler; Safety, Slots
--   and Handoff draw the conclusions.
-- - Outbox: src/outbox (the table, the worker), with its Laws and its Failures.
-- - Auth: src/auth/otp.service.ts (Otp), what becomes of a session (Sessions). Whether a code matches
--   a hash (bcrypt) and whether a message is taken are parameters.
-- - Runs: the services run on a small database.
--
-- How they interact: AssignmentsService reads an assignment with its job, checks it, and opens a
-- transaction in which it writes the assignment against the version it has read, asks the staffing
-- service to count the slots and the lifecycle service to move the job, and sets the guardian's shift;
-- after the commit it writes the audit log, notices and outbox events. Each of these calls is a call
-- of the model's function of the same name.
--
-- Choices. Ids are numbers, times are milliseconds, Decimals with two places are hundredths. The
-- clock is read once per request, since two readings in one request differ by what it takes to run.
-- Requests run one after another, so row locks (`FOR UPDATE`) have no counterpart; that a row may
-- change between a read and a commit is stated about the commits themselves. A notice or an e-mail
-- is recorded as a request for it; what the mail and SMS services do is not modelled. Decimals are
-- exact: an amount is a natural number of a unit so small (`invoice_unit`, `pay_unit`) that the
-- products of rates, hours and shares are whole; what doubles and the columns' two decimals round
-- is left out. BillingService is an interface (Assignments/Completion): the handlers call it to
-- make a draft invoice, of which it is assumed that it leaves assignments and jobs alone;
-- Billing/Service proves this of the model of the service. How the consumer of an outbox event ends
-- is a parameter. The loop of isNightShift runs on fuel, one more than the hours of the shift,
-- which Billing/Night proves to be enough; all other recursion is on lists, tables and histories.
--
-- Not modelled: tokens and permissions, which are checked before a handler, the payload of audit
-- entries, the wording of messages, the columns that no modelled code reads, lists and summaries that
-- only read, the creation of jobs, organizations, administration, analytics, documents and webhooks.
pub mod Prelude
pub mod Data
pub mod Jobs
pub mod Guardians
pub mod Payroll
pub mod Dispatching
pub mod Policies
pub mod Assignments
pub mod Billing
pub mod Outbox
pub mod Runs
pub mod Auth
pub mod Queue
