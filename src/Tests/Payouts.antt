-- ===== src/Tests/Payouts.antt =====
-- A withdrawal that two admins approve, and that is paid out.
use quata_trade.Prelude.{ℕ, ◌≡◌, refl, true, arith, Option, none, some, String, List, [], ◌∷◌}
use quata_trade.Domain.{
  usdt_trc20, pending_approval, rejected, finance_admin, compliance_admin, active_user,
}
use quata_trade.Errors.{PgCode, withdrawal_verification}
use quata_trade.Ledger.{word}
use quata_trade.Ledger.History.{empty_ledger, run_calls}
use quata_trade.Db.{Db, Withdrawal, User}
use quata_trade.Tx.{ok, err}
use quata_trade.Withdrawals.Factors.{verify_totp, accept_step, consume_step}
use quata_trade.Tables.{find_user, update_user}
use quata_trade.Withdrawals.Secrets.{totp_used_once}
use quata_trade.Withdrawals.Rows.{find_withdrawal, is_released}
use quata_trade.Withdrawals.Calls.{
  WithdrawalCall, approval, claiming, broadcasted, settlement, run_withdrawals, Continues,
  released_dual_approved, withdrawal_keeps_course, settled_withdrawal_stays,
}
use quata_trade.Withdrawals.History.{AllDualApproved}
use quata_trade.Tests.Data.{new_trade, db_with}

abbrev pub large : Withdrawal
large = record {
  id = 60;
  user_id = 7;
  asset = usdt_trc20;
  to_address = 5_000;
  amount = 600;
  fee = 1;
  status = pending_approval;
  risk_score = 40;
  approved_by = none;
  second_approver = none;
  tx_hash = none;
  failure_reason = none;
  debit_journal_id = 9;
  idempotency_key = word "withdraw-it-please" ∷ [];
  created_at = 1_000;
}

abbrev refused : Withdrawal
refused = record large { status = rejected }

abbrev payouts : Withdrawal → Db
payouts w = record (db_with (run_calls [] empty_ledger) new_trade) { withdrawals = w ∷ [] }

abbrev no_aborts : ℕ → Option PgCode
no_aborts n = none

abbrev pub as_is : String → String
as_is s = s

abbrev way_out : List ((ℕ → Option PgCode) × WithdrawalCall)
way_out =
    (no_aborts, approval 60 1 finance_admin)
    ∷ (no_aborts, approval 60 2 compliance_admin)
    ∷ (no_aborts, claiming 60)
    ∷ (no_aborts, broadcasted 60 77)
    ∷ (no_aborts, settlement 60)
    ∷ []

released_dual_approved_example :
    AllDualApproved 500 (run_withdrawals as_is 500 way_out (payouts large)).withdrawals
unfolding is_released
released_dual_approved_example =
    released_dual_approved as_is 500 way_out (payouts large) ((λ h. cc), tt)

withdrawal_keeps_course_example :
    Continues large (run_withdrawals as_is 500 way_out (payouts large)).withdrawals
unfolding find_withdrawal
withdrawal_keeps_course_example =
    withdrawal_keeps_course as_is 500 way_out (payouts large) large refl

settled_withdrawal_stays_example :
    (v : Withdrawal) × (find_withdrawal 60
        (run_withdrawals as_is 500 way_out (payouts refused)).withdrawals
      ≡ some v)
    × (v.status ≡ rejected)
unfolding find_withdrawal
settled_withdrawal_stays_example =
    settled_withdrawal_stays as_is 500 way_out (payouts refused) refused refl refl

abbrev holder : User
holder = record {
  id = 7;
  status = active_user;
  country = 237;
  kyc_tier = 1;
  email = 70;
  email_verified = true;
  withdrawal_hold_until = none;
  totp_enabled = true;
  has_totp_secret = true;
  totp_last_step = some 90;
  has_pin = true;
  pin_attempts = 0;
  pin_locked_until = none;
}

abbrev with_holder : User → Db
with_holder u = record (payouts large) { users = u ∷ [] }

step_accepted :
    verify_totp holder (some 95) (with_holder holder)
    ≡ (ok tt, with_holder (record holder { totp_last_step = some 95 }))
unfolding verify_totp accept_step consume_step find_user update_user
step_accepted = refl

totp_used_once_example :
    verify_totp holder (some 95) (with_holder (record holder { totp_last_step = some 95 }))
    ≡ (err withdrawal_verification, with_holder (record holder { totp_last_step = some 95 }))
totp_used_once_example =
    totp_used_once holder holder 95 95 (with_holder holder)
      (with_holder (record holder { totp_last_step = some 95 })) step_accepted refl (omega arith)
