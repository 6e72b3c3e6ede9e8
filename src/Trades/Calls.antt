-- ===== src/Trades/Calls.antt =====
-- The life of trades as the services drive it (backend/src/modules/trades, escrow, disputes): any
-- sequence of their calls keeps the escrow accounts at what the live trades hold in them.
use quata_trade.Prelude.{
  ℕ, ◌≡◌, Option, String, List, [], ◌∷◌, not, Bool, true, false, if◌then◌else◌,
}
use quata_trade.Domain.{AssetCode, DisputeResolution}
use quata_trade.Errors.{PgCode}
use quata_trade.Tx.{Result}
use quata_trade.Tx.Preserves.{with_money_transaction-keeps}
use quata_trade.Tx.Ensures.{Ensures-Preserves}
use quata_trade.Ledger.Holdings.{holding}
use quata_trade.Db.{Db}
use quata_trade.Escrow.{confirm_release, cancel_trade, expire_trade}
use quata_trade.Escrow.Backing.{Backed, escrow_of, locked_in}
use quata_trade.Escrow.Transactions.{
  confirm_release-Backed, cancel_trade-Backed, expire_trade-Backed,
}
use quata_trade.Trades.{
  OpenTradeRequest, TradeSettings, PaymentProof, all_in_folder, open_trade, submit_payment,
  confirm_trade, cancel_opened_trade,
}
use quata_trade.Trades.Backing.{open_trade-Backed, submit_payment-Backed}
use quata_trade.Disputes.{open_dispute_on, resolve}
use quata_trade.Disputes.Backing.{open_dispute-Backed, resolve-Backed}

-- The calls. `text` writes an id out.
pub data TradeCall : Type 0 where
  start : TradeSettings → (taker_id : ℕ) → OpenTradeRequest → TradeCall
  pay : (text : ℕ → String) (trade_id buyer_id : ℕ) → PaymentProof → TradeCall
  confirm : (now trade_id seller_id : ℕ) → TradeCall
  cancel : (trade_id user_id : ℕ) → TradeCall
  expire : (now trade_id : ℕ) → TradeCall
  dispute : (fee trade_id user_id : ℕ) (reason : String) → TradeCall
  decide : (now dispute_id admin_id : ℕ) → DisputeResolution → (notes : String) → TradeCall

unfoldable pub run_trade : (ℕ → Option PgCode) → TradeCall → Db → Db
run_trade aborts (start s taker dto) db = (open_trade aborts s taker dto db).1
run_trade aborts (pay text id buyer dto) db = (submit_payment text aborts id buyer dto db).1
run_trade aborts (confirm now id seller) db = (confirm_trade aborts now id seller db).1
run_trade aborts (cancel id user) db = (cancel_opened_trade aborts id user db).1
run_trade aborts (expire now id) db = (expire_trade aborts now id db).1
run_trade aborts (dispute fee id user reason) db = (open_dispute_on aborts fee id user reason db).1
run_trade aborts (decide now id admin r notes) db = (resolve aborts now id admin r notes db).1

unfoldable pub run_trades : List ((ℕ → Option PgCode) × TradeCall) → Db → Db
run_trades [] db = db
run_trades ((aborts, call) ∷ calls) db = run_trades calls (run_trade aborts call db)

either_Backed :
    {A : Type 0} (b : Bool) (x y : Result A × Db)
    → Backed x.1
    → Backed y.1
    → Backed (if b then x else y).1
either_Backed true x y h k = h
either_Backed false x y h k = k

run_trade-Backed :
    (aborts : ℕ → Option PgCode) (call : TradeCall) (db : Db)
    → Backed db
    → Backed (run_trade aborts call db)
unfolding run_trade open_trade submit_payment confirm_trade confirm_release cancel_opened_trade
    cancel_trade expire_trade
run_trade-Backed aborts (start s taker dto) db h =
    either_Backed s.trades_paused _ _ h
      (with_money_transaction-keeps aborts _ db (open_trade-Backed s taker dto) h)
run_trade-Backed aborts (pay text id buyer dto) db h =
    either_Backed (not (all_in_folder text id dto.proof_files)) _ _ h (
      with_money_transaction-keeps aborts _ db
        (Ensures-Preserves (submit_payment-Backed id buyer dto)) h)
run_trade-Backed aborts (confirm now id seller) db h =
    with_money_transaction-keeps aborts _ db
      (Ensures-Preserves (confirm_release-Backed now id seller)) h
run_trade-Backed aborts (cancel id user) db h =
    with_money_transaction-keeps aborts _ db (Ensures-Preserves (cancel_trade-Backed id user)) h
run_trade-Backed aborts (expire now id) db h =
    with_money_transaction-keeps aborts _ db (Ensures-Preserves (expire_trade-Backed now id)) h
run_trade-Backed aborts (dispute fee id user reason) db h =
    open_dispute-Backed aborts fee id user reason db h
run_trade-Backed aborts (decide now id admin r notes) db h =
    resolve-Backed aborts now id admin r notes db h

pub run_trades-Backed :
    (calls : List ((ℕ → Option PgCode) × TradeCall)) (db : Db)
    → Backed db
    → Backed (run_trades calls db)
unfolding run_trades
run_trades-Backed [] db h = h
run_trades-Backed ((aborts, call) ∷ calls) db h =
    run_trades-Backed calls (run_trade aborts call db) (run_trade-Backed aborts call db h)

-- Where the escrow accounts are backed, after any sequence of calls that open, pay, confirm,
-- cancel, expire, dispute and decide trades, failed and retried ones among them, every owner's escrow
-- account holds in each asset exactly what the owner's funded trades as a seller have locked: the
-- sum of their amounts and seller fees.
pub escrow_holds_live_trades :
    (calls : List ((ℕ → Option PgCode) × TradeCall)) (db : Db) (owner : Option ℕ)
    (asset : AssetCode)
    → Backed db
    → holding (run_trades calls db).ledger (escrow_of owner asset)
      ≡ locked_in (escrow_of owner asset) (run_trades calls db).trades
escrow_holds_live_trades calls db owner asset h = (run_trades-Backed calls db h).backed owner asset
