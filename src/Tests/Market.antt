-- ===== src/Tests/Market.antt =====
-- A small market: a seller with a balance and an offer, a buyer who takes it, and one who disputes.
use quata_trade.Prelude.{
  ◌+◌, negsuc, neg_ℤ, ◌+ℤ◌, ℕ, ◌≡◌, refl, ap, ◌∙◌, ◌-ℤ◌, pos, Option, none, some, List, [], ◌∷◌,
  false, true, arith,
}
use quata_trade.Domain.{
  escrow_locked, status_eq, deposit_credit, usdt_trc20, external, user_available, active_user,
  active, sell, AssetCode, refund_to_seller,
}
use quata_trade.Errors.{PgCode}
use mathlib.Core.Path.{subst}
use quata_trade.Fees.{integer, split_per_side, compute_fee, fiat_value_xaf}
use quata_trade.Ledger.Invariant.{IsConsistent}
use quata_trade.Ledger.History.{
  LedgerCall, open_account, post, run_call, run_calls, run_calls_consistent, empty_ledger,
}
use quata_trade.Trades.Overdue.{overdue_trade_always_expires}
use quata_trade.Escrow.Expiry.{Returned}
use quata_trade.Tests.Data.{deposited}
use quata_trade.Ledger.History.{open_account, post, run_calls, empty_ledger}
use quata_trade.Ledger.{Ledger}
use quata_trade.Tests.Data.{deposited}
use quata_trade.Ledger.{
  Ledger, JournalInput, word, num, system, transfer_ref, find_account, find_journal,
  get_or_create_account, post_journal, insert_journal, lock_order, validate, scan_legs, key_length,
  post_in_trx, post_new, ensure_balance, lock_balances, select_balances, find_balance,
  find_account_row, check_accounts, compute_updates, new_balance, apply_updates, key_eq,
  set_balance, to_entry,
}
use quata_trade.Ledger.Holdings.{holding, holding_unknown, IsIndexed}
use quata_trade.Db.{Db, Trade, on_ledger, User, Offer}
use quata_trade.Tx.{ok, execute}
use quata_trade.Tx.Retry.{with_money_transaction-eq-execute}
use quata_trade.Tables.{new_id, find_user}
use quata_trade.Escrow.{
  find_trade, set_trade, find_offer, set_offer, passes_trigger, is_legal, record_creation,
  lock_escrow, transition, write_transition, expire_trade,
}
use quata_trade.Escrow.Backing.{Backed, escrow_of, locked_in}
use quata_trade.Escrow.Settling.{elsewhere}
use quata_trade.Trades.{
  open_trade, open_trade_tx, create_trade, lock_offer, check_offer, decrement_offer, insert_trade,
  check_party, TradeSettings, OpenTradeRequest, PaymentProof,
}
use quata_trade.Trades.Calls.{
  run_trade, TradeCall, start, pay, dispute, decide, run_trades, escrow_holds_live_trades,
}
use quata_trade.Tests.Data.{new_trade, db_with}

abbrev pub member : ℕ → User
member id = record {
  id = id;
  status = active_user;
  country = 237;
  kyc_tier = 1;
  email = 70 + id;
  email_verified = true;
  withdrawal_hold_until = none;
  totp_enabled = false;
  has_totp_secret = false;
  totp_last_step = none;
  has_pin = false;
  pin_attempts = 0;
  pin_locked_until = none;
}

abbrev pub sell_offer : Offer
sell_offer = record {
  id = 30;
  user_id = 7;
  country = 237;
  side = sell;
  asset = usdt_trc20;
  price_xaf_per_unit = 655_000;
  min_trade = 1;
  max_trade = 400;
  remaining = 400;
  payment_methods = 1 ∷ [];
  status = active;
}

-- Two accounts, and a deposit of 500 for the seller.
abbrev market_deposit : JournalInput
market_deposit = record deposited {
  legs =
      record { account_id = 0; amount = negsuc 499 }
      ∷ record { account_id = 1; amount = pos 500 }
      ∷ [];
}

abbrev deposits : List LedgerCall
deposits =
    open_account none external usdt_trc20
    ∷ open_account (some 7) user_available usdt_trc20
    ∷ post market_deposit
    ∷ []

abbrev pub market_ledger : Ledger
market_ledger = record {
  accounts =
      record { id = 1; owner = some 7; kind = user_available; asset = usdt_trc20 }
      ∷ record { id = 0; owner = none; kind = external; asset = usdt_trc20 }
      ∷ [];
  balances =
      record { account_id = 1; kind = user_available; balance = pos 500; version = 1 }
      ∷ record { account_id = 0; kind = external; balance = negsuc 499; version = 1 }
      ∷ [];
  journals =
      record {
        id = 2;
        reason = deposit_credit;
        reference_type = transfer_ref;
        reference_id = 900;
        idempotency_key = word "deposit" ∷ num 900 ∷ [];
        created_by = system;
      }
      ∷ [];
  entries =
      record { journal_id = 2; account_id = 0; asset = usdt_trc20; amount = negsuc 499 }
      ∷ record { journal_id = 2; account_id = 1; asset = usdt_trc20; amount = pos 500 }
      ∷ [];
  next_id = 3;
}

deposits_run : run_calls deposits empty_ledger ≡ market_ledger
unfolding run_calls run_call get_or_create_account ensure_balance find_account post_journal validate
    scan_legs ◌+ℤ◌ key_length post_in_trx find_journal post_new lock_balances select_balances
    lock_order find_balance check_accounts find_account_row compute_updates new_balance
    insert_journal apply_updates key_eq set_balance to_entry neg_ℤ
deposits_run = refl

pub market_ledger-IsConsistent : IsConsistent market_ledger
market_ledger-IsConsistent = subst IsConsistent deposits_run (run_calls_consistent deposits)

abbrev pub market : Db
market = record (db_with market_ledger new_trade) {
  trades = [];
  offers = sell_offer ∷ [];
  users = member 7 ∷ member 8 ∷ [];
  enabled_countries = 237 ∷ [];
}

pub market_ledger-IsIndexed : IsIndexed market_ledger
unfolding find_account_row
market_ledger-IsIndexed = record {
  ids = (refl, (refl, tt));
  accounts_below = (omega arith, (omega arith, tt));
  rows_below = (omega arith, (omega arith, tt));
}

no_escrow :
    (o : Option ℕ) (c : AssetCode)
    → find_account (escrow_of o c).owner (escrow_of o c).kind c market_ledger.accounts ≡ none
unfolding find_account
no_escrow o c =
    rw
      (
        elsewhere (some 7) o user_available usdt_trc20 c refl,
        elsewhere none o external usdt_trc20 c refl,
      )
      refl

market-Backed : Backed market
unfolding find_trade find_journal key_eq locked_in
market-Backed = record {
  indexed = market_ledger-IsIndexed;
  backed = λ o c. holding_unknown (escrow_of o c) market_ledger (no_escrow o c);
  keys = λ t h. absurd (cc);
  future = λ id later. (refl, (refl, refl, refl));
}

abbrev no_aborts : ℕ → Option PgCode
no_aborts n = none

abbrev settings : TradeSettings
settings = record {
  trades_paused = false;
  now = 1_000;
  window_minutes = 30;
  fee_bps = integer (pos 100);
  seller_fee_bps = integer (pos 100);
  max_trade = λ tier. 1_000;
  promo_bps = λ country. none;
}

abbrev taken_offer : OpenTradeRequest
taken_offer = record { offer_id = 30; amount = 200; payment_method = 1 }

abbrev proof : PaymentProof
proof = record { reference = "MP1"; sender_name = "B"; sender_number = "6"; proof_files = [] }

-- Opened, paid, disputed, and refunded; another one opened and left in escrow.
abbrev market_calls : List ((ℕ → Option PgCode) × TradeCall)
market_calls =
    (no_aborts, start settings 8 taken_offer)
    ∷ (no_aborts, pay (λ id. "t") 100 8 proof)
    ∷ (no_aborts, dispute 5 100 7 "no coins")
    ∷ (no_aborts, decide 2_000 101 1 refund_to_seller "no payment")
    ∷ (no_aborts, start settings 8 taken_offer)
    ∷ []

escrow_holds_live_trades_example :
    holding (run_trades market_calls market).ledger (escrow_of (some 7) usdt_trc20)
    ≡ locked_in (escrow_of (some 7) usdt_trc20) (run_trades market_calls market).trades
escrow_holds_live_trades_example =
    escrow_holds_live_trades market_calls market (some 7) usdt_trc20 market-Backed

-- A trade that was opened and never paid.
abbrev opened_calls : List ((ℕ → Option PgCode) × TradeCall)
opened_calls = (no_aborts, start settings 8 taken_offer) ∷ []

abbrev unpaid_trade : Trade
unpaid_trade = record {
  id = 100;
  country = 237;
  offer_id = 30;
  seller_id = 7;
  buyer_id = 8;
  asset = usdt_trc20;
  amount = 200;
  price_xaf_per_unit = 655_000;
  fiat_amount_xaf = 131;
  payment_method = 1;
  fee_bps = 100;
  fee_amount = 2;
  seller_fee_bps = 100;
  seller_fee_amount = 2;
  status = escrow_locked;
  payment_deadline = some 1_801_000;
  completed_at = none;
  escrow_journal_id = some 4;
  release_journal_id = none;
}

opened_runs :
    (run_trades opened_calls market).trades
    ≡ (execute (open_trade_tx settings 8 taken_offer) market).1.trades
unfolding run_trades run_trade open_trade open_trade_tx create_trade lock_offer check_offer
    decrement_offer new_id insert_trade record_creation lock_escrow transition write_transition
    find_trade set_trade find_offer set_offer find_user check_party split_per_side compute_fee
    fiat_value_xaf on_ledger run_calls get_or_create_account ensure_balance find_account
    post_journal validate scan_legs ◌+ℤ◌ ◌-ℤ◌ key_length post_in_trx find_journal post_new
    lock_balances select_balances lock_order find_balance check_accounts find_account_row
    compute_updates new_balance insert_journal apply_updates key_eq set_balance to_entry neg_ℤ
    passes_trigger is_legal status_eq
opened_runs =
    ap (λ p. p.1.trades)
      (with_money_transaction-eq-execute no_aborts (open_trade_tx settings 8 taken_offer) 0 market
        (omega arith) tt refl tt)

unpaid_found : find_trade 100 (run_trades opened_calls market).trades ≡ some unpaid_trade
unfolding open_trade_tx create_trade lock_offer check_offer decrement_offer new_id insert_trade
    record_creation lock_escrow transition write_transition find_trade set_trade find_offer
    set_offer find_user check_party split_per_side compute_fee fiat_value_xaf on_ledger
    get_or_create_account ensure_balance find_account post_journal validate scan_legs ◌+ℤ◌ ◌-ℤ◌
    key_length post_in_trx find_journal post_new lock_balances select_balances lock_order
    find_balance check_accounts find_account_row compute_updates new_balance insert_journal
    apply_updates key_eq set_balance to_entry neg_ℤ passes_trigger is_legal status_eq execute
unpaid_found = ap (find_trade 100) opened_runs ∙ refl

overdue_trade_always_expires_example :
    (db : Db) × (expire_trade no_aborts 1_900_000 100 (run_trades opened_calls market)
      ≡ (ok true, db))
    × Returned 100 unpaid_trade (run_trades opened_calls market) db
overdue_trade_always_expires_example =
    overdue_trade_always_expires opened_calls market no_aborts 0 1_900_000 100 unpaid_trade
      market-Backed market_ledger-IsConsistent (omega arith) tt refl
      (record { found = unpaid_found; funded = refl; due = refl; positive = omega arith })
