-- ===== src/Trades/Overdue.antt =====
-- Calls that drive trades (backend/src/modules/trades, escrow, disputes), and the trades past their
-- deadline.
use quata_trade.Prelude.{
  ℕ, ◌+◌, ◌≤◌, ◌≡◌, Bool, true, false, not, if◌then◌else◌, Option, none, List, [], ◌∷◌,
}
use quata_trade.Errors.{PgCode}
use quata_trade.Tx.{Result, ok}
use quata_trade.Tx.Retry.{Aborted}
use quata_trade.Tx.Preserves.{with_money_transaction-keeps}
use quata_trade.Ledger.Invariant.{IsConsistent}
use quata_trade.Db.{Db, Trade}
use quata_trade.Escrow.{confirm_release, cancel_trade, expire_trade}
use quata_trade.Escrow.Keeps.{
  confirm_release-Preserves, cancel_trade-Preserves, expire_trade-Preserves,
}
use quata_trade.Escrow.History.{LedgerIsConsistent-Survives}
use quata_trade.Escrow.Backing.{Backed}
use quata_trade.Escrow.Expiry.{IsOverdue, Returned, overdue_trade_expires}
use quata_trade.Trades.{
  open_trade, submit_payment, all_in_folder, confirm_trade, cancel_opened_trade,
}
use quata_trade.Trades.Calls.{
  TradeCall, start, pay, confirm, cancel, expire, dispute, decide, run_trade, run_trades,
  run_trades-Backed,
}
use quata_trade.Disputes.{open_dispute_on}
use quata_trade.Trades.Sound.{
  open_trade-Sound, submit_payment-Sound, open_dispute-Sound, resolve-Sound,
}

either_Sound :
    {A : Type 0} (b : Bool) (x y : Result A × Db)
    → IsConsistent x.1.ledger
    → IsConsistent y.1.ledger
    → IsConsistent (if b then x else y).1.ledger
either_Sound true x y h k = h
either_Sound false x y h k = k

run_trade-Sound :
    (aborts : ℕ → Option PgCode) (call : TradeCall) (db : Db)
    → IsConsistent db.ledger
    → IsConsistent (run_trade aborts call db).ledger
unfolding run_trade open_trade submit_payment confirm_trade confirm_release cancel_opened_trade
    cancel_trade expire_trade open_dispute_on
run_trade-Sound aborts (start s taker dto) db h =
    either_Sound s.trades_paused _ _ h
      (with_money_transaction-keeps aborts _ db (open_trade-Sound s taker dto) h)
run_trade-Sound aborts (pay text id buyer dto) db h =
    either_Sound (not (all_in_folder text id dto.proof_files)) _ _ h
      (with_money_transaction-keeps aborts _ db (submit_payment-Sound id buyer dto) h)
run_trade-Sound aborts (confirm now id seller) db h =
    with_money_transaction-keeps aborts _ db
      (confirm_release-Preserves LedgerIsConsistent-Survives now id seller) h
run_trade-Sound aborts (cancel id user) db h =
    with_money_transaction-keeps aborts _ db
      (cancel_trade-Preserves LedgerIsConsistent-Survives id user) h
run_trade-Sound aborts (expire now id) db h =
    with_money_transaction-keeps aborts _ db
      (expire_trade-Preserves LedgerIsConsistent-Survives now id) h
run_trade-Sound aborts (dispute fee id user reason) db h =
    with_money_transaction-keeps aborts _ (record db { next_id = db.next_id + 1 })
      (open_dispute-Sound fee db.next_id id user reason) h
run_trade-Sound aborts (decide now id admin r notes) db h =
    resolve-Sound aborts now id admin r notes db h

run_trades-Sound :
    (calls : List ((ℕ → Option PgCode) × TradeCall)) (db : Db)
    → IsConsistent db.ledger
    → IsConsistent (run_trades calls db).ledger
unfolding run_trades
run_trades-Sound [] db h = h
run_trades-Sound ((aborts, call) ∷ calls) db h =
    run_trades-Sound calls (run_trade aborts call db) (run_trade-Sound aborts call db h)

-- After any sequence of trade calls from a database whose ledger is consistent and whose escrow
-- accounts are backed, every funded trade of a positive amount past its deadline can be expired: the
-- call succeeds if the database aborts at most two attempts, the trade ends as expired, and its
-- amount and seller fee are back in the seller's balance.
pub overdue_trade_always_expires :
    (calls : List ((ℕ → Option PgCode) × TradeCall)) (start_db : Db) (aborts : ℕ → Option PgCode)
    (n now id : ℕ) (t : Trade)
    → Backed start_db
    → IsConsistent start_db.ledger
    → n ≤ 2
    → Aborted aborts 1 n
    → aborts (1 + n) ≡ none
    → IsOverdue now id t (run_trades calls start_db)
    → (db : Db) × (expire_trade aborts now id (run_trades calls start_db) ≡ (ok true, db))
      × Returned id t (run_trades calls start_db) db
overdue_trade_always_expires calls start_db aborts n now id t h c few aborted goes o =
    overdue_trade_expires aborts n now id t (run_trades calls start_db) few aborted goes
      (run_trades-Backed calls start_db h) (run_trades-Sound calls start_db c) o
