-- ===== src/Tests/Withdrawing.antt =====
-- Saving a destination and withdrawing to it.
use quata_trade.Prelude.{
  ℕ, ◌≡◌, refl, ◌+ℤ◌, ◌-ℤ◌, neg_ℤ, true, false, pos, arith, none, some, List, [], ◌∷◌, Option,
}
use quata_trade.Domain.{usdt_trc20, pending_approval, active_user}
use quata_trade.Errors.{PgCode}
use quata_trade.Tx.{ok, execute, with_money_transaction}
use quata_trade.Fees.{integer, compute_fee}
use quata_trade.Ledger.{
  word, find_account, find_journal, get_or_create_account, post_journal, insert_journal, lock_order,
  validate, scan_legs, key_length, post_in_trx, post_new, ensure_balance, lock_balances,
  select_balances, find_balance, find_account_row, check_accounts, compute_updates, new_balance,
  apply_updates, key_eq, set_balance, to_entry,
}
use quata_trade.Db.{Db, User, Withdrawal, WithdrawalAddress, on_ledger}
use quata_trade.Withdrawals.Request.{
  WithdrawalRequest, Outside, request, request_new, and_then, request_checked, check_account,
  check_destination, find_address, find_by_key, check_whitelist, withdrawal_charge, request_tx,
  capped_request, debit_request, record_request, insert_withdrawal, replay_request,
  daily_withdrawn_amount, prior_count, recent_count, initial_status,
}
use quata_trade.Withdrawals.Factors.{verify_totp, accept_step, consume_step, verify_pin, count_pin}
use quata_trade.Withdrawals.Rows.{is_released}
use quata_trade.Risk.{ratio_score, score_withdrawal_risk}
use quata_trade.Tables.{find_user, update_user, new_id, enqueue_outbox, audit}
use quata_trade.Withdrawals.Whitelist.{
  AddAddress, AddressTerms, insert_address, save_address, add_address_steps, add_address,
  remove_address, delete_address,
}
use quata_trade.Withdrawals.Cooldown.{
  WhitelistCall, adding, removing, run_whitelist, new_destination_waits,
}
use quata_trade.Withdrawals.Refused.{IsRefused}
use quata_trade.Withdrawals.Granted.{IsGranted, request_grants}
use quata_trade.Tests.Data.{new_trade, db_with}
use quata_trade.Tests.Market.{market_ledger}

abbrev payer : User
payer = record {
  id = 7;
  status = active_user;
  country = 237;
  kyc_tier = 1;
  email = 70;
  email_verified = true;
  withdrawal_hold_until = none;
  totp_enabled = true;
  has_totp_secret = true;
  totp_last_step = some 90;
  has_pin = true;
  pin_attempts = 0;
  pin_locked_until = none;
}

abbrev bank : Db
bank = record (db_with market_ledger new_trade) { users = payer ∷ [] }

abbrev no_aborts : ℕ → Option PgCode
no_aborts n = none

abbrev answers : Outside
answers = record {
  withdrawals_paused = false;
  now = 50_000_000;
  start_of_day = 40_000_000;
  totp_step = some 95;
  pin_matches = true;
  is_tron_address = true;
  is_screened_out = false;
  fee_fixed = 2;
  fee_bps = integer (pos 100);
  fee_waived = false;
  per_tx_max = 400;
  daily_max = 450;
  auto_approve_below = 50;
  dual_approval_threshold = 300;
  tier_daily_withdrawal = λ tier. 1_000;
}

abbrev asked : WithdrawalRequest
asked = record {
  asset = usdt_trc20;
  amount = 100;
  to_address = 5_000;
  idempotency_key = word "pay-me-out-now" ∷ [];
}

abbrev cold_terms : AddressTerms
cold_terms = record {
  now = 1_000;
  is_tron_address = true;
  is_screened_out = false;
  new_address_minutes = 1_440;
}

abbrev wanted : AddAddress
wanted = record { asset = usdt_trc20; address = 5_000; label = none }

-- Saved, removed by its owner, and saved again.
abbrev savings : List WhitelistCall
savings =
    adding cold_terms 7 wanted
    ∷ removing 7 100
    ∷ adding (record cold_terms { now = 2_000 }) 7 wanted
    ∷ []

new_destination_waits_example :
    IsRefused (request no_aborts answers 7 asked (run_whitelist savings bank)).0
unfolding find_address find_by_key run_whitelist add_address add_address_steps save_address
    insert_address remove_address delete_address new_id execute
new_destination_waits_example =
    new_destination_waits savings 1_000 1_440 7 no_aborts answers asked bank refl
      ((omega arith, omega arith), (tt, ((omega arith, omega arith), tt))) (omega arith) refl

abbrev saved_address : WithdrawalAddress
saved_address = record {
  id = 99;
  user_id = 7;
  asset = usdt_trc20;
  address = 5_000;
  label = none;
  is_active = true;
  usable_at = 86_401_000;
  created_at = 1_000;
}

abbrev later_answers : Outside
later_answers = record answers { now = 90_000_000; start_of_day = 86_400_000 }

abbrev ready_bank : Db
ready_bank = record bank { withdrawal_addresses = saved_address ∷ [] }

-- A first withdrawal of a tenth of the daily limit.
abbrev paid_out : Withdrawal
paid_out = record {
  id = 100;
  user_id = 7;
  asset = usdt_trc20;
  to_address = 5_000;
  amount = 100;
  fee = 3;
  status = pending_approval;
  risk_score = 30;
  approved_by = none;
  second_approver = none;
  tx_hash = none;
  failure_reason = none;
  debit_journal_id = 4;
  idempotency_key = word "pay-me-out-now" ∷ [];
  created_at = 90_000_000;
}

after_request : Db
after_request = (request no_aborts later_answers 7 asked ready_bank).1

requested : request no_aborts later_answers 7 asked ready_bank ≡ (ok paid_out, after_request)
unfolding after_request request request_new and_then request_checked check_account check_destination
    find_address find_by_key check_whitelist withdrawal_charge compute_fee request_tx capped_request
    debit_request record_request insert_withdrawal replay_request daily_withdrawn_amount prior_count
    recent_count score_withdrawal_risk initial_status verify_totp accept_step consume_step
    verify_pin count_pin find_user update_user new_id enqueue_outbox audit on_ledger
    with_money_transaction get_or_create_account ensure_balance find_account post_journal validate
    scan_legs ◌+ℤ◌ ◌-ℤ◌ key_length post_in_trx find_journal post_new lock_balances select_balances
    lock_order find_balance check_accounts find_account_row compute_updates new_balance
    insert_journal apply_updates key_eq set_balance to_entry neg_ℤ is_released ratio_score
requested = refl

request_grants_example : IsGranted 7 later_answers asked ready_bank paid_out
unfolding find_by_key
request_grants_example =
    request_grants no_aborts later_answers 7 asked ready_bank after_request paid_out refl requested
