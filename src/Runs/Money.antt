-- ===== src/Runs/Money.antt =====
-- Runs of billing and payroll on the small database.
use guardian_backend_service.Prelude.{◌≡◌, refl, none, some, [], ◌∷◌}
use guardian_backend_service.Prelude.Table.{find, find_where}
use guardian_backend_service.Prelude.Effect.{ok, ◌>>=◌}
use guardian_backend_service.Data.{PayPolicyModel, Store, AuthUser, ops_admin}
use guardian_backend_service.Data.Money.{
  Invoice, InvoiceStatus, invoice_eq, issued, void, Payment, PaymentStatus, Earning, EarningStatus,
  earning_eq, payout_eq,
}
use guardian_backend_service.Policies.{assert_org_member}
use guardian_backend_service.Billing.Invoices.{dispute_invoice, DisputeResolution, resolve_dispute}
use guardian_backend_service.Billing.Payments.{
  CreatePaymentInput, create_payment, confirm_payment, set_paid,
}
use guardian_backend_service.Billing.Requests.{Request, handle, done, request}
use guardian_backend_service.Billing.Steps.{MovesTo, handle-Steps}
use guardian_backend_service.Billing.Lifecycle.{IsKeptIn, Trace-Kept}
use guardian_backend_service.Billing.Disputes.{dispute_then_clear, confirm_payment-pays}
use guardian_backend_service.Billing.Repeats.{create_payment-again}
use guardian_backend_service.Runs.Database.{empty_ledger, evening}

abbrev pub invoice_in : InvoiceStatus → Invoice
invoice_in status = record {
  organization_id = 90;
  job_id = 50;
  subtotal = 800000;
  tax_amount = 144000;
  total = 944000;
  currency = "RWF";
  status = status;
  arrived_at = some 5000;
  completed_at = some 8000;
  scheduled_ms = 4000;
  actual_ms = 3000;
  billable_ms = 4000;
  billing_basis = "BOOKED_BLOCK";
  issued_at = none;
  due_at = none;
  void_reason = none;
  replacement_invoice_id = none;
  dispute_reason = none;
  disputed_at = none;
  disputed_by = none;
  status_before_dispute = none;
  dispute_resolved_at = none;
  dispute_resolved_by = none;
  dispute_resolution_note = none;
}

abbrev pub mobile_payment : Payment
mobile_payment = record {
  invoice_id = 4;
  provider = 0;
  external_txn_id = none;
  amount = 100;
  currency = "RWF";
  status = PaymentStatus.pending;
  idempotency_key = 77;
  paid_at = none;
}

abbrev pub wage : Earning
wage = record {
  guardian_id = 7;
  assignment_id = 1;
  job_id = 50;
  invoice_id = 4;
  payable_ms = 3000;
  actual_ms = 3000;
  scheduled_ms = 4000;
  pay_minimum_hours = 0;
  pay_policy_model = PayPolicyModel.actual_time;
  pay_basis = "ACTUAL_TIME";
  hourly_pay_rate = some 1500;
  amount = 4500000;
  currency = "RWF";
  status = EarningStatus.pending_payout;
  payout_id = none;
  paid_at = none;
}

-- an invoice with a payment, and an earning of its guardian
abbrev pub month_end : InvoiceStatus → Store
month_end status = record evening {
  ledger = record empty_ledger {
    invoices = (4, invoice_in status) ∷ [];
    payments = (6, mobile_payment) ∷ [];
    earnings = (2, wage) ∷ [];
  };
}

abbrev admin : AuthUser
admin = record {
  sub = 1;
  roles = ops_admin ∷ [];
  guardian_id = none;
  active_org_id = none;
  org_id = none;
  organization_ids = [];
}

handle-Steps_example :
    MovesTo 1 (month_end issued) (handle (Request.void 4 1 "wrong rate" none) (month_end issued))
handle-Steps_example = handle-Steps (Request.void 4 1 "wrong rate" none) (month_end issued)

Trace-Kept_example :
    IsKeptIn 4
      (invoice_in issued)
      (handle
        (Request.confirm 6 none)
        (handle (Request.dispute 4 admin "too long") (month_end issued))).ledger.invoices
unfolding find
Trace-Kept_example =
    Trace-Kept
      (request (request (done (month_end issued)) (Request.dispute 4 admin "too long"))
        (Request.confirm 6 none))
      4 (invoice_in issued) refl

dispute_then_clear_example :
    (b : Invoice) × (find 4
        (resolve_dispute 4 1
          (DisputeResolution.clear none)
          (dispute_invoice 4 admin "too long" (month_end issued)).1).1.ledger.invoices
      ≡ some b)
    × (b.status ≡ issued)
unfolding find assert_org_member ◌>>=◌
dispute_then_clear_example =
    dispute_then_clear 4 (invoice_in issued) admin "too long" 1 none (month_end issued) refl refl
      refl

-- the guardian's wage is accrued when the payment is confirmed; until then nothing is earned
abbrev unpaid_month : Store
unpaid_month = record (month_end issued) {
  ledger = record (month_end issued).ledger { earnings = [] };
}

confirm_payment-pays_example :
    find 4 (confirm_payment 6 none (month_end void)).1.ledger.invoices
    ≡ some (set_paid (invoice_in void))
unfolding find
confirm_payment-pays_example =
    confirm_payment-pays 6 none (month_end void) mobile_payment (invoice_in void) refl refl

abbrev second_payment : CreatePaymentInput
second_payment = record {
  invoice_id = 4;
  provider = 0;
  amount = 200;
  idempotency_key = 78;
  external_txn_id = none;
}

create_payment-again_example :
    create_payment second_payment (create_payment second_payment (month_end issued)).1
    ≡ (ok 7, (create_payment second_payment (month_end issued)).1)
unfolding create_payment find ◌>>=◌ find_where
create_payment-again_example =
    create_payment-again second_payment second_payment (month_end issued) 7 refl refl
