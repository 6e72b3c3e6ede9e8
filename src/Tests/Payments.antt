-- ===== src/Tests/Payments.antt =====
-- What a rejection, a failure, a settlement and a release move, on a small ledger.
use quata_trade.Prelude.{
  ℕ, ◌≡◌, refl, true, ◌+ℤ◌, ◌-ℤ◌, neg_ℤ, pos, negsuc, Option, none, some, [], ◌∷◌, arith,
}
use quata_trade.Domain.{
  usdt_trc20, external, user_escrow, platform_pending_sweep, signing, broadcast, rejected, failed,
  confirmed, payment_submitted, completed, AccountKind, withdrawal_status_eq, status_eq,
}
use quata_trade.Errors.{PgCode}
use quata_trade.Tx.{ok, with_money_transaction}
use quata_trade.Ledger.{
  Ledger, find_account, find_journal, get_or_create_account, post_journal, insert_journal,
  lock_order, validate, scan_legs, key_length, post_in_trx, post_new, ensure_balance, lock_balances,
  select_balances, find_balance, find_account_row, check_accounts, compute_updates, new_balance,
  apply_updates, key_eq, set_balance, to_entry,
}
use quata_trade.Ledger.Holdings.{IsIndexed}
use quata_trade.Db.{Db, Withdrawal, Trade, on_ledger}
use quata_trade.Tables.{enqueue_outbox, audit}
use quata_trade.Withdrawals.Rows.{
  find_withdrawal, set_withdrawal, write_withdrawal, lock_withdrawal, guarded_update,
  passes_dual_approval, is_released, dual_approved, refund_withdrawal,
}
use quata_trade.Withdrawals.Decide.{rejection, reject, reject_tx, reject_and_refund}
use quata_trade.Withdrawals.Settle.{
  when_status, settle, settle_confirmed, fail_and_refund, mark_failed,
}
use quata_trade.Withdrawals.Payback.{
  Closed, refund_moves, settle_moves, rejected_withdrawal_refunded, failed_withdrawal_refunded,
  settled_withdrawal_pays,
}
use quata_trade.Escrow.{
  find_trade, lock_trade, set_trade, transition, passes_trigger, is_legal, write_transition,
  post_release, release_and_complete, confirm_release_tx, confirm_release,
}
use quata_trade.Escrow.Payouts.{PaidOut, released_trade_pays}
use quata_trade.Tests.Data.{new_trade, db_with}
use quata_trade.Tests.Payouts.{large, as_is}

abbrev no_aborts : ℕ → Option PgCode
no_aborts n = none

-- 1000 came from outside; `n` of it is in an account of the kind `k`.
abbrev holder_of : AccountKind → Option ℕ → Ledger
holder_of k owner = record {
  accounts =
      record { id = 1; owner = none; kind = external; asset = usdt_trc20 }
      ∷ record { id = 2; owner = owner; kind = k; asset = usdt_trc20 }
      ∷ [];
  balances =
      record { account_id = 1; kind = external; balance = negsuc 999; version = 1 }
      ∷ record { account_id = 2; kind = k; balance = pos 1_000; version = 1 }
      ∷ [];
  journals = [];
  entries = [];
  next_id = 4;
}

holder_of-IsIndexed : (k : AccountKind) (o : Option ℕ) → IsIndexed (holder_of k o)
unfolding find_account_row
holder_of-IsIndexed k o = record {
  ids = (refl, (refl, tt));
  accounts_below = (omega arith, (omega arith, tt));
  rows_below = (omega arith, (omega arith, tt));
}

abbrev swept : Withdrawal → Db
swept w = record (db_with (holder_of platform_pending_sweep none) new_trade) {
  withdrawals = w ∷ [];
}

after_rejection : Db
after_rejection = (reject no_aborts 500 60 1 "no" (swept large)).1

rejection_runs :
    reject no_aborts 500 60 1 "no" (swept large) ≡ (ok (rejection "no" large), after_rejection)
unfolding after_rejection reject reject_tx reject_and_refund lock_withdrawal find_withdrawal
    guarded_update passes_dual_approval is_released dual_approved write_withdrawal set_withdrawal
    refund_withdrawal enqueue_outbox audit on_ledger with_money_transaction get_or_create_account
    ensure_balance find_account post_journal validate scan_legs ◌+ℤ◌ ◌-ℤ◌ key_length post_in_trx
    find_journal post_new lock_balances select_balances lock_order find_balance check_accounts
    find_account_row compute_updates new_balance insert_journal apply_updates key_eq set_balance
    to_entry neg_ℤ withdrawal_status_eq
rejection_runs = refl

rejected_withdrawal_refunded_example :
    Closed large rejected (refund_moves large) (swept large) after_rejection
unfolding find_withdrawal find_journal
rejected_withdrawal_refunded_example =
    rejected_withdrawal_refunded no_aborts 500 1 "no" (swept large) after_rejection large
      (rejection "no" large) (holder_of-IsIndexed platform_pending_sweep none) refl (λ h. cc) refl
      rejection_runs

abbrev in_signing : Withdrawal
in_signing = record large { status = signing }

after_failure : Db
after_failure = (mark_failed as_is no_aborts 500 60 "lost" (swept in_signing)).1

failure_runs :
    mark_failed as_is no_aborts 500 60 "lost" (swept in_signing) ≡ (ok true, after_failure)
unfolding after_failure mark_failed when_status fail_and_refund find_withdrawal guarded_update
    passes_dual_approval is_released dual_approved write_withdrawal set_withdrawal refund_withdrawal
    enqueue_outbox audit on_ledger with_money_transaction get_or_create_account ensure_balance
    find_account post_journal validate scan_legs ◌+ℤ◌ ◌-ℤ◌ key_length post_in_trx find_journal
    post_new lock_balances select_balances lock_order find_balance check_accounts find_account_row
    compute_updates new_balance insert_journal apply_updates key_eq set_balance to_entry neg_ℤ
    withdrawal_status_eq
failure_runs = refl

failed_withdrawal_refunded_example :
    Closed in_signing failed (refund_moves in_signing) (swept in_signing) after_failure
unfolding find_withdrawal find_journal
failed_withdrawal_refunded_example =
    failed_withdrawal_refunded as_is no_aborts 500 "lost" (swept in_signing) after_failure
      in_signing (holder_of-IsIndexed platform_pending_sweep none) refl refl failure_runs

abbrev sent : Withdrawal
sent = record large { status = broadcast }

after_settlement : Db
after_settlement = (settle_confirmed no_aborts 500 60 (swept sent)).1

settlement_runs : settle_confirmed no_aborts 500 60 (swept sent) ≡ (ok true, after_settlement)
unfolding after_settlement settle_confirmed when_status settle find_withdrawal guarded_update
    passes_dual_approval is_released dual_approved write_withdrawal set_withdrawal enqueue_outbox
    audit on_ledger with_money_transaction get_or_create_account ensure_balance find_account
    post_journal validate scan_legs ◌+ℤ◌ ◌-ℤ◌ key_length post_in_trx find_journal post_new
    lock_balances select_balances lock_order find_balance check_accounts find_account_row
    compute_updates new_balance insert_journal apply_updates key_eq set_balance to_entry neg_ℤ
    withdrawal_status_eq
settlement_runs = refl

settled_withdrawal_pays_example :
    Closed sent confirmed (settle_moves sent) (swept sent) after_settlement
unfolding find_withdrawal find_journal
settled_withdrawal_pays_example =
    settled_withdrawal_pays no_aborts 500 (swept sent) after_settlement sent
      (holder_of-IsIndexed platform_pending_sweep none) refl refl settlement_runs

abbrev paid : Trade
paid = record new_trade { status = payment_submitted }

abbrev in_escrow : Db
in_escrow = db_with (holder_of user_escrow (some 7)) paid

abbrev released : Trade
released = record paid { status = completed; release_journal_id = some 6 }

after_release : Db
after_release = (confirm_release no_aborts 5 40 7 in_escrow).1

release_runs : confirm_release no_aborts 5 40 7 in_escrow ≡ (ok released, after_release)
unfolding after_release confirm_release confirm_release_tx release_and_complete lock_trade
    find_trade transition passes_trigger is_legal write_transition set_trade post_release on_ledger
    with_money_transaction get_or_create_account ensure_balance find_account post_journal validate
    scan_legs ◌+ℤ◌ ◌-ℤ◌ key_length post_in_trx find_journal post_new lock_balances select_balances
    lock_order find_balance check_accounts find_account_row compute_updates new_balance
    insert_journal apply_updates key_eq set_balance to_entry neg_ℤ status_eq
release_runs = refl

released_trade_pays_example : (paid.seller_id ≡ 7) × PaidOut paid in_escrow after_release
unfolding find_trade find_journal
released_trade_pays_example =
    released_trade_pays no_aborts 5 7 in_escrow after_release paid released
      (holder_of-IsIndexed user_escrow (some 7)) refl refl refl release_runs
