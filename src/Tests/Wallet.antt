-- ===== src/Tests/Wallet.antt =====
-- A transfer between two members of the market, and guesses of a PIN.
use quata_trade.Prelude.{
  ℕ, ◌≡◌, refl, ◌∙◌, ◌+ℤ◌, ◌-ℤ◌, neg_ℤ, Option, none, some, [], ◌∷◌, true, false, arith,
}
use quata_trade.Domain.{usdt_trc20, user_available}
use quata_trade.Errors.{PgCode}
use quata_trade.Tx.{ok, execute, with_money_transaction}
use quata_trade.Tx.Retry.{with_money_transaction-eq-execute}
use quata_trade.Tables.{new_id, enqueue_outbox, audit}
use quata_trade.Ledger.{
  JournalResult, word, find_account, find_journal, get_or_create_account, post_journal,
  insert_journal, lock_order, validate, scan_legs, key_length, post_in_trx, post_new,
  ensure_balance, lock_balances, select_balances, find_balance, find_account_row, check_accounts,
  compute_updates, new_balance, apply_updates, key_eq, set_balance, to_entry,
}
use quata_trade.Ledger.Holdings.{holding, moved}
use quata_trade.Ledger.Transfers.{ref}
use quata_trade.Db.{Db, on_ledger}
use quata_trade.Wallet.{TransferRequest, transfer_tx, announce_transfer}
use quata_trade.Wallet.Pin.{verify_transaction_pin}
use quata_trade.Wallet.Guesses.{guess_wrong, wrong_guesses_never_lock}
use quata_trade.Wallet.Transfer.{transfer_moves, internal_transfer_moves}
use quata_trade.Tests.Market.{member, market, market_ledger-IsIndexed}

abbrev no_aborts : ℕ → Option PgCode
no_aborts n = none

abbrev pin_market : Db
pin_market = record market { users = record (member 7) { has_pin = true } ∷ member 8 ∷ [] }

wrong_guesses_never_lock_example :
    verify_transaction_pin 60 7 true (guess_wrong (10 ∷ 20 ∷ 30 ∷ 40 ∷ 50 ∷ 51 ∷ []) 7 pin_market)
    ≡ verify_transaction_pin 60 7 true pin_market
wrong_guesses_never_lock_example =
    wrong_guesses_never_lock (10 ∷ 20 ∷ 30 ∷ 40 ∷ 50 ∷ 51 ∷ []) 60 7 true pin_market

abbrev gift : TransferRequest
gift = record {
  to_email = 78;
  asset = usdt_trc20;
  amount = 50;
  pin_matches = true;
  idempotency_key = word "gift" ∷ [];
}

abbrev gift_result : JournalResult
gift_result = record { journal_id = 4; replayed = false }

after_gift : Db
after_gift = (execute (transfer_tx 7 8 gift) market).1

gift_runs :
    with_money_transaction no_aborts (transfer_tx 7 8 gift) market ≡ (ok gift_result, after_gift)
unfolding after_gift transfer_tx announce_transfer execute new_id enqueue_outbox audit on_ledger
    get_or_create_account ensure_balance find_account post_journal validate scan_legs ◌+ℤ◌ ◌-ℤ◌
    key_length post_in_trx find_journal post_new lock_balances select_balances lock_order
    find_balance check_accounts find_account_row compute_updates new_balance insert_journal
    apply_updates key_eq set_balance to_entry neg_ℤ
gift_runs =
    with_money_transaction-eq-execute no_aborts (transfer_tx 7 8 gift) 0 market (omega arith) tt
      refl tt
    ∙ refl

internal_transfer_moves_example :
    holding after_gift.ledger (ref (some 8) user_available usdt_trc20)
    ≡ moved (transfer_moves 7 8 gift) (ref (some 8) user_available usdt_trc20)
      +ℤ holding market.ledger (ref (some 8) user_available usdt_trc20)
unfolding find_journal key_eq
internal_transfer_moves_example =
    internal_transfer_moves no_aborts 7 8 gift market gift_result after_gift market_ledger-IsIndexed
      refl gift_runs (ref (some 8) user_available usdt_trc20)
