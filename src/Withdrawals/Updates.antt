-- ===== src/Withdrawals/Updates.antt =====
-- The steps between the statuses of a withdrawal, and what each UPDATE of WithdrawalsService
-- (backend/src/modules/withdrawals/withdrawals.service.ts) does to its row.
use quata_trade.Prelude.{ℕ, ◌≡◌, refl, Bool, true, false, not, ◌&&◌, ◌||◌, Option, String, arith}
use quata_trade.Domain.{
  WithdrawalStatus, requested, risk_hold, pending_approval, approved, signing, broadcast, confirmed,
  rejected, failed, withdrawal_status_eq,
}
use quata_trade.Db.{Withdrawal}
use quata_trade.Withdrawals.Rows.{is_released}
use quata_trade.Withdrawals.Decide.{single_approval, first_approval, second_approval, rejection}
use quata_trade.Withdrawals.Settle.{claim, broadcasting, confirmation, failure}

-- The steps that the service takes from one status to another.
unfoldable pub is_step : WithdrawalStatus → WithdrawalStatus → Bool
is_step requested rejected = true
is_step risk_hold rejected = true
is_step risk_hold pending_approval = true
is_step risk_hold approved = true
is_step pending_approval pending_approval = true
is_step pending_approval approved = true
is_step pending_approval rejected = true
is_step approved signing = true
is_step signing broadcast = true
is_step signing failed = true
is_step broadcast confirmed = true
is_step _ _ = false

-- What a withdrawal keeps for life.
pub record SameWithdrawal (v w : Withdrawal) : Type 0 where
  pub id : w.id ≡ v.id
  pub user : w.user_id ≡ v.user_id
  pub asset : w.asset ≡ v.asset
  pub amount : w.amount ≡ v.amount
  pub fee : w.fee ≡ v.fee
  pub address : w.to_address ≡ v.to_address
  pub key : w.idempotency_key ≡ v.idempotency_key

-- What every update of a row in the status `expected` does.
pub record IsUpdate (expected : WithdrawalStatus) (set : Withdrawal → Withdrawal) : Type 0 where
  pub step : (w : Withdrawal) → is_step expected (set w).status ≡ true
  pub terms : (w : Withdrawal) → SameWithdrawal w (set w)
  -- once released, the approvals stay
  pub approvals :
      is_released expected ≡ true
      → (w : Withdrawal)
      → ((set w).approved_by ≡ w.approved_by) × ((set w).second_approver ≡ w.second_approver)

pub withdrawal_status_eq→eq : (s t : WithdrawalStatus) → withdrawal_status_eq s t ≡ true → s ≡ t
unfolding withdrawal_status_eq
withdrawal_status_eq→eq s t h = ground arith

abbrev pub is_waiting : WithdrawalStatus → Bool
is_waiting s = withdrawal_status_eq s pending_approval || withdrawal_status_eq s risk_hold

pub waiting :
    (s : WithdrawalStatus)
    → (not (withdrawal_status_eq s pending_approval) && not (withdrawal_status_eq s risk_hold))
      ≡ false
    → (is_step s approved ≡ true)
      × (is_step s pending_approval ≡ true)
      × (is_step s rejected ≡ true)
      × (is_released s ≡ false)
unfolding withdrawal_status_eq is_step is_released
waiting s h = ground arith

pub rejectable :
    (s : WithdrawalStatus)
    → (not (withdrawal_status_eq s requested)
        && not (withdrawal_status_eq s risk_hold)
        && not (withdrawal_status_eq s pending_approval))
      ≡ false
    → (is_step s rejected ≡ true) × (is_released s ≡ false)
unfolding withdrawal_status_eq is_step is_released
rejectable s h = ground arith

pub same_terms :
    (w : Withdrawal) (s : WithdrawalStatus) (a b hash : Option ℕ) (why : Option String)
    → SameWithdrawal w (record w {
      status = s;
      approved_by = a;
      second_approver = b;
      tx_hash = hash;
      failure_reason = why;
    })
same_terms w s a b hash why = record {
  id = refl;
  user = refl;
  asset = refl;
  amount = refl;
  fee = refl;
  address = refl;
  key = refl;
}

pub confirmation-IsUpdate : IsUpdate broadcast confirmation
unfolding is_step
confirmation-IsUpdate = record {
  step = λ v. refl;
  terms = λ v. same_terms v confirmed _ _ _ _;
  approvals = λ h v. (refl, refl);
}

pub failure-IsUpdate : (why : String) → IsUpdate signing (failure why)
unfolding is_step
failure-IsUpdate why = record {
  step = λ v. refl;
  terms = λ v. same_terms v failed _ _ _ _;
  approvals = λ h v. (refl, refl);
}

pub claim-IsUpdate : IsUpdate approved claim
unfolding is_step
claim-IsUpdate = record {
  step = λ v. refl;
  terms = λ v. same_terms v signing _ _ _ _;
  approvals = λ h v. (refl, refl);
}

pub broadcasting-IsUpdate : (hash : ℕ) → IsUpdate signing (broadcasting hash)
unfolding is_step
broadcasting-IsUpdate hash = record {
  step = λ v. refl;
  terms = λ v. same_terms v broadcast _ _ _ _;
  approvals = λ h v. (refl, refl);
}

pub second_approval-IsUpdate : (admin : ℕ) → IsUpdate pending_approval (second_approval admin)
unfolding is_step is_released
second_approval-IsUpdate admin = record {
  step = λ v. refl;
  terms = λ v. same_terms v approved _ _ _ _;
  approvals = λ h. cc;
}

pub single_approval-IsUpdate :
    (w : Withdrawal) (admin : ℕ)
    → is_step w.status approved ≡ true
    → is_released w.status ≡ false
    → IsUpdate w.status (single_approval w admin)
single_approval-IsUpdate w admin step waits = record {
  step = λ v. step;
  terms = λ v. same_terms v approved _ _ _ _;
  approvals = λ h. cc;
}

pub first_approval-IsUpdate :
    (s : WithdrawalStatus) (admin : ℕ)
    → is_step s pending_approval ≡ true
    → is_released s ≡ false
    → IsUpdate s (first_approval admin)
first_approval-IsUpdate s admin step waits = record {
  step = λ v. step;
  terms = λ v. same_terms v pending_approval _ _ _ _;
  approvals = λ h. cc;
}

pub rejection-IsUpdate :
    (s : WithdrawalStatus) (reason : String)
    → is_step s rejected ≡ true
    → is_released s ≡ false
    → IsUpdate s (rejection reason)
rejection-IsUpdate s reason step waits = record {
  step = λ v. step;
  terms = λ v. same_terms v rejected _ _ _ _;
  approvals = λ h. cc;
}
