-- ===== src/Payroll/Payouts.antt =====
-- The payouts to guardians (src/guardian-payroll/guardian-payroll.service.ts). A handler runs alone, so
-- the idempotency key that was looked up is still free at the insertion.
use guardian_backend_service.Prelude.{
  ℕ, ◌+◌, ◌==◌, ◌===◌, ◌&&◌, not, Bool, true, false, Option, none, some, List, [], ◌∷◌, select,
  length, includes, nat_eq, is_the, String, first_of_two,
}
use guardian_backend_service.Prelude.Table.{Table, find, modify, find_where, fresh_id, insert}
use guardian_backend_service.Prelude.Effect.{
  ok, ◌>>=◌, ◌>>◌, pure, gets, branch, throw_if, some_or_throw, earnings_not_payable,
  payout_amount_zero, payout_not_found, guardian_not_found,
}
use guardian_backend_service.Data.{Store, Guardian, Action, audit_log, notify, Notice}
use guardian_backend_service.Data.Money.{
  Earning, EarningStatus, earning_eq, Payout, PayoutStatus, payout_eq,
}
use guardian_backend_service.Billing.Tables.{update_ledger}

pub record CreatePayoutDto : Type 0 where
  pub earning_ids : List ℕ
  pub provider : ℕ
  pub idempotency_key : ℕ
  pub external_txn_id : Option String

abbrev pub is_payable : List ℕ → ℕ → ℕ × Earning → Bool
is_payable ids guardian (id, e) =
    includes ids id && e.guardian_id == guardian && e.status === EarningStatus.pending_payout

unfoldable pub payable_earnings : List ℕ → ℕ → Store → Table Earning
payable_earnings ids guardian s = select (is_payable ids guardian) s.ledger.earnings

unfoldable pub sum_amounts : Table Earning → ℕ
sum_amounts [] = 0
sum_amounts ((id, e) ∷ t) = e.amount + sum_amounts t

abbrev pub new_payout : ℕ → Guardian → CreatePayoutDto → ℕ → ℕ → Payout
new_payout guardian g dto actor amount = record {
  guardian_id = guardian;
  amount = amount;
  currency = g.pay_currency;
  provider = dto.provider;
  status = PayoutStatus.pending;
  external_txn_id = dto.external_txn_id;
  idempotency_key = dto.idempotency_key;
  paid_at = none;
  created_by_user_id = actor;
}

-- `updateMany({ where: { id: { in: ids } }, data: { payoutId } })`
unfoldable pub attach_payout : ℕ → List ℕ → Table Earning → Table Earning
attach_payout payout ids [] = []
attach_payout payout ids ((id, e) ∷ t) =
    (
      id,
      record e { payout_id = elim (includes ids id) [ true ↦ some payout | false ↦ e.payout_id ] },
    )
    ∷ attach_payout payout ids t

-- the transaction
unfoldable pub commit_payout : List ℕ → Payout → Action ℕ
unfolding fresh_id attach_payout
commit_payout ids p s =
    let id = fresh_id s.ledger.payouts in
    (
      ok id,
      record s {
        ledger = record s.ledger {
          payouts = insert p s.ledger.payouts;
          earnings = attach_payout id ids s.ledger.earnings;
        };
      },
    )

unfoldable pub new_payout_for : ℕ → CreatePayoutDto → ℕ → Action ℕ
unfolding payable_earnings sum_amounts commit_payout audit_log
new_payout_for guardian dto actor = do
  earnings ← gets (payable_earnings dto.earning_ids guardian)
  throw_if (not (length earnings == length dto.earning_ids)) earnings_not_payable
  row ← some_or_throw (← gets λ s. find guardian s.guardians) guardian_not_found
  throw_if (sum_amounts earnings == 0) payout_amount_zero
  payout ← commit_payout dto.earning_ids (new_payout guardian row dto actor (sum_amounts earnings))
  audit_log (some actor) "GUARDIAN_PAYOUT_CREATED" payout
  pure payout

unfoldable pub create_payout : ℕ → CreatePayoutDto → ℕ → Action ℕ
unfolding new_payout_for
create_payout guardian dto actor = do
  existing ←
      gets
        λ s. find_where (λ (p : Payout). p.idempotency_key == dto.idempotency_key) s.ledger.payouts
  elim existing [ none ↦ new_payout_for guardian dto actor | some row ↦ pure row.0 ]

abbrev pub complete_payout : ℕ → Option String → Payout → Payout
complete_payout now txn p = record p {
  status = PayoutStatus.completed;
  paid_at = some now;
  external_txn_id = first_of_two txn p.external_txn_id;
}

-- `updateMany({ where: { payoutId }, data: { status: PAID, paidAt } })`
unfoldable pub settle_earnings : ℕ → ℕ → Table Earning → Table Earning
settle_earnings payout now [] = []
settle_earnings payout now ((id, e) ∷ t) =
    (
      id,
      elim (is_the e.payout_id payout) [
        | true ↦ record e { status = EarningStatus.paid; paid_at = some now }
        | false ↦ e
      ],
    )
    ∷ settle_earnings payout now t

unfoldable pub confirm_payout : ℕ → Option String → Action (Unit {0})
unfolding settle_earnings update_ledger audit_log notify
confirm_payout id txn = do
  payout ← some_or_throw (← gets λ s. find id s.ledger.payouts) payout_not_found
  branch (payout.status === PayoutStatus.completed) (pure tt) (do
    now ← gets λ s. s.now
    update_ledger λ l. record l {
      payouts = modify id (complete_payout now txn) l.payouts;
      earnings = settle_earnings id now l.earnings;
    }
    audit_log none "GUARDIAN_PAYOUT_CONFIRMED" id
    notify (Notice.email_guardian payout.guardian_id "GUARDIAN_PAYOUT_CONFIRMED" id)
    notify (Notice.in_app_guardian payout.guardian_id "Payout confirmed" id))
