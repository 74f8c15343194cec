-- ===== src/Payroll/Paid.antt =====
-- What a payout pays (`createPayout` and `confirmPayout` of
-- src/guardian-payroll/guardian-payroll.service.ts).
use guardian_backend_service.Prelude.{
  ℕ, ◌≡◌, ◌≢◌, refl, true, false, Option, none, some, String, List, [], ◌∷◌, arith, ◌==◌, ◌===◌,
  select, length, nat_eq, is_the, Option-cases, Bool-cases, inl, inr,
}
use guardian_backend_service.Prelude.Table.{Table, find, find_where, fresh_id}
use guardian_backend_service.Prelude.Table.Laws.{map_option, find-modify_self}
use guardian_backend_service.Prelude.Effect.{Error, ok, err, ◌>>=◌}
use guardian_backend_service.Data.{Store, Guardian, audit_log, notify}
use guardian_backend_service.Data.Money.{
  Earning, EarningStatus, earning_eq, Payout, PayoutStatus, payout_eq,
}
use guardian_backend_service.Billing.Tables.{update_ledger}
use guardian_backend_service.Payroll.Payouts.{
  CreatePayoutDto, is_payable, payable_earnings, sum_amounts, attach_payout, commit_payout,
  new_payout_for, create_payout, complete_payout, settle_earnings, confirm_payout,
}

new_payout-error :
    (guardian : ℕ) (dto : CreatePayoutDto) (actor : ℕ) (s : Store) (e : Error)
    → (new_payout_for guardian dto actor s).0 ≡ err e
    → (new_payout_for guardian dto actor s).1 ≡ s
unfolding new_payout_for ◌>>=◌ commit_payout audit_log
new_payout-error guardian dto actor s e h = ground arith

unfoldable pub payout_with : ℕ → Store → Option (ℕ × Payout)
payout_with key s = find_where (λ (p : Payout). p.idempotency_key == key) s.ledger.payouts

create_payout-known :
    (guardian : ℕ) (dto : CreatePayoutDto) (actor : ℕ) (s : Store) (row : ℕ × Payout)
    → payout_with dto.idempotency_key s ≡ some row
    → create_payout guardian dto actor s ≡ (ok row.0, s)
unfolding create_payout ◌>>=◌ payout_with
create_payout-known guardian dto actor s row h = ground arith

create_payout-new :
    (guardian : ℕ) (dto : CreatePayoutDto) (actor : ℕ) (s : Store)
    → payout_with dto.idempotency_key s ≡ none
    → create_payout guardian dto actor s ≡ new_payout_for guardian dto actor s
unfolding create_payout ◌>>=◌ payout_with
create_payout-new guardian dto actor s h = ground arith

-- `createPayout` writes nothing when it throws.
pub create_payout-error :
    (guardian : ℕ) (dto : CreatePayoutDto) (actor : ℕ) (s : Store) (e : Error)
    → (create_payout guardian dto actor s).0 ≡ err e
    → (create_payout guardian dto actor s).1 ≡ s
create_payout-error guardian dto actor s e h =
    elim (Option-cases (payout_with dto.idempotency_key s)) [
      | inl none_yet ↦ ground (
        arith,
        create_payout-new guardian dto actor s none_yet,
        new_payout-error guardian dto actor s e,
      )
      | inr (row, there) ↦ ground (arith, create_payout-known guardian dto actor s row there)
    ]

find-settle :
    (id payout now : ℕ) (t : Table Earning)
    → find id (settle_earnings payout now t)
      ≡ map_option
          (λ e. elim (is_the e.payout_id payout) [
            | true ↦ record e { status = EarningStatus.paid; paid_at = some now }
            | false ↦ e
          ])
          (find id t)
unfolding find settle_earnings
find-settle id payout now [] = refl
find-settle id payout now ((k, e) ∷ t) = ground (arith, find-settle id payout now t)

-- The confirmation of a payout that is not confirmed yet makes the earnings that it is attached to PAID,
-- whatever their status is, and leaves every other earning as it is.
pub confirm_payout-settles :
    (id : ℕ) (txn : Option String) (s : Store) (p : Payout) (k : ℕ) (e : Earning)
    → find id s.ledger.payouts ≡ some p
    → p.status ≢ PayoutStatus.completed
    → find k s.ledger.earnings ≡ some e
    → (e.payout_id ≡ some id
        → find k (confirm_payout id txn s).1.ledger.earnings
          ≡ some (record e { status = EarningStatus.paid; paid_at = some s.now }))
      × (e.payout_id ≢ some id → find k (confirm_payout id txn s).1.ledger.earnings ≡ some e)
unfolding confirm_payout ◌>>=◌ update_ledger audit_log notify
confirm_payout-settles id txn s p k e row fresh there = (
  λ h. ground (arith, find-settle k id s.now s.ledger.earnings),
  λ h. ground (arith, find-settle k id s.now s.ledger.earnings),
)

confirm_payout-completed :
    (id : ℕ) (txn : Option String) (s : Store) (p : Payout)
    → find id s.ledger.payouts ≡ some p
    → p.status ≡ PayoutStatus.completed
    → confirm_payout id txn s ≡ (ok tt, s)
unfolding confirm_payout ◌>>=◌
confirm_payout-completed id txn s p row h = ground arith

confirm_payout-completes :
    (id : ℕ) (txn : Option String) (s : Store) (p : Payout)
    → find id s.ledger.payouts ≡ some p
    → p.status ≢ PayoutStatus.completed
    → find id (confirm_payout id txn s).1.ledger.payouts ≡ some (complete_payout s.now txn p)
unfolding confirm_payout ◌>>=◌ update_ledger audit_log notify
confirm_payout-completes id txn s p row h =
    ground (arith, find-modify_self id (complete_payout s.now txn) s.ledger.payouts p row)

-- A payout that has been confirmed is not confirmed again: the second request writes nothing.
pub confirm_payout-again :
    (id : ℕ) (txn again : Option String) (s : Store) (p : Payout)
    → find id s.ledger.payouts ≡ some p
    → confirm_payout id again (confirm_payout id txn s).1 ≡ (ok tt, (confirm_payout id txn s).1)
confirm_payout-again id txn again s p row =
    elim (Bool-cases (p.status === PayoutStatus.completed)) [
      | inl done ↦ ground (
        arith,
        confirm_payout-completed id txn s p row,
        confirm_payout-completed id again s p row,
      )
      | inr fresh ↦
          confirm_payout-completed id again (confirm_payout id txn s).1
            (complete_payout s.now txn p)
            (confirm_payout-completes id txn s p row (λ e. ground arith)) refl
    ]

attach-payable :
    (payout guardian : ℕ) (all ids : List ℕ) (t : Table Earning)
    → (sum_amounts (select (is_payable ids guardian) (attach_payout payout all t))
        ≡ sum_amounts (select (is_payable ids guardian) t))
      × (length (select (is_payable ids guardian) (attach_payout payout all t))
          ≡ length (select (is_payable ids guardian) t))
unfolding attach_payout sum_amounts
attach-payable payout guardian all ids [] = (refl, refl)
attach-payable payout guardian all ids ((k, e) ∷ t) =
    ground (arith, attach-payable payout guardian all ids t)

-- what a new payout leaves for another
new_payout-leaves :
    (guardian : ℕ) (dto : CreatePayoutDto) (actor : ℕ) (s : Store) (ids : List ℕ)
    → (sum_amounts (payable_earnings ids guardian (new_payout_for guardian dto actor s).1)
        ≡ sum_amounts (payable_earnings ids guardian s))
      × (length (payable_earnings ids guardian (new_payout_for guardian dto actor s).1)
          ≡ length (payable_earnings ids guardian s))
      × ((new_payout_for guardian dto actor s).1.guardians ≡ s.guardians)
unfolding new_payout_for ◌>>=◌ commit_payout audit_log payable_earnings
new_payout-leaves guardian dto actor s ids = grind (
  arith,
  attach-payable (fresh_id s.ledger.payouts) guardian dto.earning_ids ids s.ledger.earnings,
)

-- when a new payout is made
abbrev IsPayable : List ℕ → ℕ → Store → Type 0
IsPayable ids guardian s =
    (length (payable_earnings ids guardian s) ≡ length ids)
    × (sum_amounts (payable_earnings ids guardian s) ≢ 0)
    × ((g : Guardian) × (find guardian s.guardians ≡ some g))

new_payout-IsPayable :
    (guardian : ℕ) (dto : CreatePayoutDto) (actor : ℕ) (s : Store) (p : ℕ)
    → (new_payout_for guardian dto actor s).0 ≡ ok p
    → IsPayable dto.earning_ids guardian s
unfolding new_payout_for ◌>>=◌
new_payout-IsPayable guardian dto actor s p h = elim (Option-cases (find guardian s.guardians)) [
  | inl e ↦ absurd (ground arith)
  | inr (g, e) ↦ (ground arith, λ zero_sum. ground arith, (g, e))
]

IsPayable-new_payout :
    (guardian : ℕ) (dto : CreatePayoutDto) (actor : ℕ) (s : Store)
    → IsPayable dto.earning_ids guardian s
    → (new_payout_for guardian dto actor s).0 ≡ ok (fresh_id s.ledger.payouts)
unfolding new_payout_for ◌>>=◌ commit_payout audit_log
IsPayable-new_payout guardian dto actor s (enough, positive, (g, there)) = ground arith

paid_again :
    (guardian : ℕ) (dto other : CreatePayoutDto) (actor : ℕ) (s : Store) (p : ℕ)
    → (new_payout_for guardian dto actor s).0 ≡ ok p
    → other.earning_ids ≡ dto.earning_ids
    → (new_payout_for guardian other actor (new_payout_for guardian dto actor s).1).0
      ≡ ok (fresh_id (new_payout_for guardian dto actor s).1.ledger.payouts)
paid_again guardian dto other actor s p done same =
    let (enough, positive, (g, there)) = new_payout-IsPayable guardian dto actor s p done in
    let (sums, lengths, rows) = new_payout-leaves guardian dto actor s dto.earning_ids in
    IsPayable-new_payout guardian other actor (new_payout_for guardian dto actor s).1 (
      rw same (cc (lengths, enough)),
      rw same (λ e. positive (cc (sums, e))),
      (g, cc (rows, there)),
    )

-- Earnings that a new payout was just made of can be put into another payout at once: a request with
-- the same earnings and a key that no payout has yet succeeds too.
pub paid_twice :
    (guardian : ℕ) (dto other : CreatePayoutDto) (actor : ℕ) (s : Store) (p : ℕ)
    → payout_with dto.idempotency_key s ≡ none
    → (create_payout guardian dto actor s).0 ≡ ok p
    → other.earning_ids ≡ dto.earning_ids
    → payout_with other.idempotency_key (create_payout guardian dto actor s).1 ≡ none
    → (create_payout guardian other actor (create_payout guardian dto actor s).1).0
      ≡ ok (fresh_id (create_payout guardian dto actor s).1.ledger.payouts)
paid_twice guardian dto other actor s p first done same second =
    rw (create_payout-new guardian other actor (create_payout guardian dto actor s).1 second) (
      rw (create_payout-new guardian dto actor s first) (
        paid_again guardian dto other actor s p
          (rw (create_payout-new guardian dto actor s first) at done) same))
