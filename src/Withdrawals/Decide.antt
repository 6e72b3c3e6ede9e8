-- ===== src/Withdrawals/Decide.antt =====
-- `approve` and `reject` of WithdrawalsService
-- (backend/src/modules/withdrawals/withdrawals.service.ts).
use quata_trade.Prelude.{ℕ, String, not, ◌&&◌, Option, none, some, ◌==◌, leb, if◌then◌else◌}
use quata_trade.Domain.{
  requested, risk_hold, pending_approval, approved, rejected, withdrawal_status_eq, AdminRole,
}
use quata_trade.Errors.{PgCode, illegal_withdrawal_state, dual_approval}
use quata_trade.Tx.{
  Tx, Service, pure, throw, throw_if, execute, ◌>>=◌, ◌>>◌, with_money_transaction,
}
use quata_trade.Ledger.{admin_actor}
use quata_trade.Db.{
  Db, Withdrawal, withdrawal_approved, withdrawal_rejected, audit_withdrawal_approve,
  audit_withdrawal_reject, single, first_of_two, second_of_two,
}
use quata_trade.Escrow.{or_else, is_some}
use quata_trade.Withdrawals.Rows.{
  lock_withdrawal, guarded_update, require_role, is_first_approver, is_second_approver,
  refund_withdrawal,
}
use quata_trade.Tables.{enqueue_outbox, audit}

-- What the UPDATEs set.
abbrev pub single_approval : Withdrawal → ℕ → Withdrawal → Withdrawal
single_approval wd admin_id row = record row {
  status = approved;
  approved_by = or_else wd.approved_by (some admin_id);
}

abbrev pub first_approval : ℕ → Withdrawal → Withdrawal
first_approval admin_id row = record row { status = pending_approval; approved_by = some admin_id }

abbrev pub second_approval : ℕ → Withdrawal → Withdrawal
second_approval admin_id row = record row { status = approved; second_approver = some admin_id }

abbrev pub rejection : String → Withdrawal → Withdrawal
rejection reason row = record row { status = rejected; failure_reason = some reason }

unfoldable pub approve_single : ℕ → Withdrawal → ℕ → AdminRole → Tx Db Withdrawal
approve_single threshold wd admin_id role = do
  require_role role is_first_approver
  updated ← guarded_update threshold wd.id wd.status (single_approval wd admin_id)
  enqueue_outbox (withdrawal_approved wd.id (some admin_id) none)
  audit (audit_withdrawal_approve admin_id wd.id wd.amount single)
  pure updated

unfoldable pub approve_first : ℕ → Withdrawal → ℕ → AdminRole → Tx Db Withdrawal
approve_first threshold wd admin_id role = do
  require_role role is_first_approver
  updated ← guarded_update threshold wd.id wd.status (first_approval admin_id)
  audit (audit_withdrawal_approve admin_id wd.id wd.amount first_of_two)
  pure updated

unfoldable pub approve_second : ℕ → Withdrawal → ℕ → ℕ → AdminRole → Tx Db Withdrawal
approve_second threshold wd first admin_id role = do
  throw_if (first == admin_id) dual_approval
  throw_if (is_some wd.second_approver) (illegal_withdrawal_state wd.status)
  require_role role is_second_approver
  updated ← guarded_update threshold wd.id pending_approval (second_approval admin_id)
  enqueue_outbox (withdrawal_approved wd.id (some first) (some admin_id))
  audit (audit_withdrawal_approve admin_id wd.id wd.amount second_of_two)
  pure updated

unfoldable pub approve_dual : ℕ → Withdrawal → Option ℕ → ℕ → AdminRole → Tx Db Withdrawal
approve_dual threshold wd none admin_id role = approve_first threshold wd admin_id role
approve_dual threshold wd (some first) admin_id role =
    approve_second threshold wd first admin_id role

-- `threshold` is `dualApprovalThreshold`, which the transaction reads from the settings.
unfoldable pub approve_tx : ℕ → ℕ → ℕ → AdminRole → Tx Db Withdrawal
approve_tx threshold withdrawal_id admin_id role = do
  wd ← lock_withdrawal withdrawal_id
  throw_if
      (not (withdrawal_status_eq wd.status pending_approval)
        && not (withdrawal_status_eq wd.status risk_hold))
      (illegal_withdrawal_state wd.status)
  if not (leb threshold wd.amount)
      then approve_single threshold wd admin_id role
      else approve_dual threshold wd wd.approved_by admin_id role

unfoldable pub approve : ℕ → ℕ → ℕ → AdminRole → Service Db Withdrawal
approve threshold withdrawal_id admin_id role =
    execute (approve_tx threshold withdrawal_id admin_id role)

unfoldable pub reject_and_refund : ℕ → Withdrawal → ℕ → String → Tx Db Withdrawal
reject_and_refund threshold wd admin_id reason = do
  updated ← guarded_update threshold wd.id wd.status (rejection reason)
  refund_withdrawal wd (admin_actor admin_id)
  enqueue_outbox (withdrawal_rejected wd.id)
  audit (audit_withdrawal_reject admin_id wd.id)
  pure updated

unfoldable pub reject_tx : ℕ → ℕ → ℕ → String → Tx Db Withdrawal
reject_tx threshold withdrawal_id admin_id reason = do
  wd ← lock_withdrawal withdrawal_id
  if withdrawal_status_eq wd.status rejected
      then pure wd
      else if not (withdrawal_status_eq wd.status requested)
          && not (withdrawal_status_eq wd.status risk_hold)
          && not (withdrawal_status_eq wd.status pending_approval)
      then throw (illegal_withdrawal_state wd.status)
      else reject_and_refund threshold wd admin_id reason

unfoldable pub reject : (ℕ → Option PgCode) → ℕ → ℕ → ℕ → String → Service Db Withdrawal
reject aborts threshold withdrawal_id admin_id reason =
    with_money_transaction aborts (reject_tx threshold withdrawal_id admin_id reason)
