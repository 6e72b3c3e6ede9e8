-- ===== src/Tests/Deposits.antt =====
-- A transfer that is scanned and credited, a small one that is released by an admin, a rejected one.
use quata_trade.Prelude.{
  ℕ, if◌then◌else◌, ◌==◌, ◌≡◌, refl, ◌+ℤ◌, ◌-ℤ◌, neg_ℤ, pos, Option, none, some, List, [], ◌∷◌,
  true, false, arith,
}
use quata_trade.Domain.{usdt_trc20, user_available, seen}
use quata_trade.Errors.{PgCode, deadlock_detected}
use quata_trade.Tx.{ok, is_retryable, execute, with_money_transaction}
use quata_trade.Fees.{integer, compute_fee, compute_deposit_fee}
use quata_trade.Ledger.{
  find_account, find_journal, get_or_create_account, post_journal, insert_journal, lock_order,
  validate, scan_legs, key_length, post_in_trx, post_new, ensure_balance, lock_balances,
  select_balances, find_balance, find_account_row, check_accounts, compute_updates, new_balance,
  apply_updates, key_eq, set_balance, to_entry, balance_of,
}
use quata_trade.Ledger.Holdings.{holding}
use quata_trade.Ledger.Transfers.{ref}
use quata_trade.Db.{Db, Deposit, released_hold, rejected_hold, on_ledger}
use quata_trade.Tables.{find_user, enqueue_outbox, audit}
use quata_trade.Deposits.Rows.{
  is_credited, find_deposit, update_deposit, write_deposit, find_twin, has_transfer,
}
use quata_trade.Deposits.Policy.{DepositPolicy, Limits, hold_reason}
use quata_trade.Deposits.{
  World, Terms, credit, credit_found, is_final, read_terms, screen_sender, fee_waived, with_terms,
  credit_tx, credit_row, after_twin, tainted, after_screening, policy_gate, after_policy,
  hold_by_policy, post_credit, record_credit,
}
use quata_trade.Deposits.Passes.{
  Breaker, note_success, pending_deposits, oldest_first, insert_oldest, to_int_confirmations,
  confirm_at, confirm_each, confirm_once, confirm_tick, orphan_sweep, sweep_each, newest_first,
  take,
}
use quata_trade.Deposits.Held.{decide_hold, decide_hold_tx, decide_found, write_decision}
use quata_trade.Deposits.Scan.{
  Transfer, scan_tick, scan_once, scan_each, scan_address, record_all, record_transfer,
  insert_transfer, fill_block, update_transfer, dust_floor_of, after_scan,
}
use quata_trade.Deposits.Shown.{deposit_moves}
use quata_trade.Deposits.Calls.{
  Jobs, DepositCall, scan, confirm, sweep, decide, run_deposit, run_deposits,
}
use quata_trade.Deposits.Balances.{balances_show_deposits}
use quata_trade.Deposits.Barred.{Barred}
use quata_trade.Deposits.Rejected.{rejected_deposit_stays_uncredited}
use quata_trade.Ledger.Outside.{KnowsOutside}
use quata_trade.Deposits.Released.{IsReleased, IsCredited, released_deposit_goes_through}
use quata_trade.Tests.Market.{
  market, market_ledger, market_ledger-IsIndexed, market_ledger-IsConsistent,
}

abbrev never : ℕ → ℕ → Option PgCode
never id attempt = none

abbrev policy : DepositPolicy
policy = record {
  min_amount = 30;
  max_amount = none;
  fee_fixed = pos 20;
  fee_bps = integer (pos 100);
}

abbrev no_limits : Limits
no_limits = record {
  max_user_balance = 0;
  max_daily_deposit_per_user = 0;
  max_platform_custody = 0;
}

abbrev world : World
world = record {
  now = 2_000;
  status_of = λ tx. some (record { success = true; confirmations = 25 });
  screen = λ c a. some (record { blocked = false; reason = "" });
  policy = some policy;
  limits =
      some
        (record { max_user_balance = 0; max_daily_deposit_per_user = 0; max_platform_custody = 0 });
  deposit_waived = λ country. some false;
}

abbrev transfer : ℕ → ℕ → Transfer
transfer tx amount = record {
  to = 500;
  contract = 600;
  sender = 700;
  tx_hash = tx;
  log_index = 0;
  amount = amount;
  block_number = some 5;
}

abbrev scanning : ℕ → DepositCall
scanning amount =
    scan (record { usdt_contract = 600; min_amount = 1 }) 1_000 none
      (λ address. some (transfer 900 amount ∷ transfer 900 amount ∷ []))
      (record { address = 500; user_id = 7; asset = usdt_trc20 } ∷ [])

abbrev rested : Breaker
rested = record { consecutive_failures = 0; paused_until = 0 }

abbrev start : Jobs
start = record { scanner = rested; confirmer = rested; db = market }

abbrev one_deposit : List DepositCall
one_deposit = scanning 100 ∷ confirm never world 20 (some 30) ∷ sweep world ∷ []

balances_show_deposits_example :
    holding (run_deposits one_deposit start).db.ledger (ref (some 7) user_available usdt_trc20)
    ≡ deposit_moves
        (run_deposits one_deposit start).db.deposits
        (ref (some 7) user_available usdt_trc20)
      +ℤ holding start.db.ledger (ref (some 7) user_available usdt_trc20)
unfolding find_journal key_eq
balances_show_deposits_example =
    balances_show_deposits one_deposit start (ref (some 7) user_available usdt_trc20) refl
      market_ledger-IsIndexed (λ tx log. refl)

-- Of 25, below the minimum of 30 and with a fee of 20: held, and released.
abbrev released_calls : ℕ → List DepositCall
released_calls amount =
    scanning amount
    ∷ confirm never world 20 (some 30)
    ∷ decide 3_000 100 1 released_hold "small"
    ∷ confirm never world 20 (some 30)
    ∷ []

abbrev rejected_row : Deposit
rejected_row = record {
  id = 40;
  user_id = 7;
  asset = usdt_trc20;
  tx_hash = 900;
  log_index = 0;
  amount = 25;
  block_number = some 5;
  confirmations = 25;
  status = seen;
  credited_journal_id = none;
  from_address = some 700;
  aml_hold = true;
  aml_reason = some "listed";
  fee = 0;
  policy_hold = false;
  policy_reason = none;
  hold_resolution = some rejected_hold;
  hold_resolution_reason = some "listed";
  hold_resolved_by = some 1;
  hold_resolved_at = some 1_000;
  created_at = 900;
  updated_at = some 1_000;
}

abbrev after_rejection : Jobs
after_rejection = record start { db = record market { deposits = rejected_row ∷ [] } }

rejected-Barred : Barred 40 after_rejection.db
rejected-Barred = record {
  older = omega arith;
  rows = (λ e. record { rejected = refl; held = refl; uncredited = refl; unpaid = refl }, tt);
}

abbrev later_calls : List DepositCall
later_calls =
    decide 3_000 40 1 released_hold "mistake" ∷ confirm never world 20 (some 30) ∷ sweep world ∷ []

rejected_deposit_stays_uncredited_example :
    (rejected_row.hold_resolution ≡ some rejected_hold)
    × (is_credited rejected_row.status ≡ false)
    × (rejected_row.credited_journal_id ≡ none)
unfolding run_deposits run_deposit decide_hold decide_hold_tx decide_found find_deposit execute
    confirm_tick confirm_once note_success confirm_each pending_deposits oldest_first orphan_sweep
    sweep_each newest_first take
rejected_deposit_stays_uncredited_example =
    rejected_deposit_stays_uncredited later_calls 40 after_rejection rejected_row rejected-Barred
      refl

-- The fee of a small deposit that is released is taken from what the user had: 500, in account 1.
released_deposit_debits :
    balance_of 1 (run_deposits (released_calls 15) start).db.ledger.balances ≡ pos 495
unfolding run_deposits run_deposit scan_tick scan_once scan_each scan_address record_all
    record_transfer insert_transfer dust_floor_of after_scan has_transfer fill_block update_transfer
    note_success confirm_tick confirm_once confirm_each pending_deposits oldest_first insert_oldest
    to_int_confirmations confirm_at credit credit_found is_final read_terms screen_sender fee_waived
    find_user with_terms credit_tx credit_row find_deposit find_twin after_twin tainted
    after_screening policy_gate hold_reason after_policy hold_by_policy write_deposit update_deposit
    post_credit record_credit enqueue_outbox audit decide_hold decide_hold_tx decide_found
    write_decision execute with_money_transaction on_ledger get_or_create_account ensure_balance
    find_account post_journal validate scan_legs ◌+ℤ◌ ◌-ℤ◌ neg_ℤ key_length post_in_trx find_journal
    post_new lock_balances select_balances lock_order find_balance check_accounts find_account_row
    compute_updates new_balance insert_journal apply_updates key_eq set_balance to_entry balance_of
    compute_deposit_fee compute_fee
released_deposit_debits = refl

-- A deposit of 25 from a listed sender, which an admin has released.
abbrev released_row : Deposit
released_row = record rejected_row { hold_resolution = some released_hold; aml_hold = false }

abbrev listed : World
listed = record world { screen = λ c a. some (record { blocked = true; reason = "listed" }) }

abbrev listed_terms : Terms
listed_terms = record {
  now = 2_000;
  confirmations = 25;
  screened = some (record { blocked = true; reason = "listed" });
  policy = policy;
  limits = no_limits;
  waived = false;
}

abbrev released_db : Db
released_db = record market { deposits = released_row ∷ [] }

abbrev one_abort : ℕ → Option PgCode
one_abort n = if n == 1 then some deadlock_detected else none

released_row-IsReleased : IsReleased 40 listed_terms 20 released_row released_db
unfolding find_deposit find_twin compute_deposit_fee compute_fee
released_row-IsReleased = record {
  found = refl;
  pending = refl;
  released = refl;
  alone = refl;
  charged = refl;
  below = omega arith;
}

market-KnowsOutside : KnowsOutside usdt_trc20 market_ledger
unfolding find_account find_balance
market-KnowsOutside a b at_a row = ground arith

released_deposit_goes_through_example :
    (db : Db) × (credit one_abort listed 40 25 20 released_db ≡ (ok tt, db))
    × IsCredited 40 listed_terms 20 released_row db
unfolding is_final read_terms screen_sender fee_waived find_user is_retryable
released_deposit_goes_through_example =
    released_deposit_goes_through one_abort 1 listed 40 25 20 20 listed_terms released_row
      released_db (omega arith) (refl, tt) refl market_ledger-IsIndexed market_ledger-IsConsistent
      market-KnowsOutside released_row-IsReleased refl refl
