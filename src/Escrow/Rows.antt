-- ===== src/Escrow/Rows.antt =====
-- The tables of trades and offers, and `lockTrade`, `transition` and `recordCreation` of EscrowService
-- (backend/src/modules/escrow/escrow.service.ts), with the trigger of
-- backend/src/db/migrations/0004_trading.ts.
use quata_trade.Prelude.{
  ℕ, ◌+◌, String, Bool, true, false, not, ◌||◌, Option, none, some, List, [], ◌∷◌, ◌==◌,
  if◌then◌else◌,
}
use quata_trade.Domain.{
  TradeStatus, opened, escrow_locked, payment_submitted, completed, cancelled, expired, disputed,
  resolved_release, resolved_refund, status_eq,
}
use quata_trade.Errors.{trade_not_found, illegal_transition, pg, raise_exception}
use quata_trade.Tx.{ok, err, Tx, modify}
use quata_trade.Ledger.{Actor}
use quata_trade.Db.{Db, Trade, Offer, trade_opened, trade_moved}

unfoldable pub find_trade : ℕ → List Trade → Option Trade
find_trade id [] = none
find_trade id (t ∷ ts) = if t.id == id then some t else find_trade id ts

unfoldable pub set_trade : Trade → List Trade → List Trade
set_trade t [] = []
set_trade t (u ∷ us) = if u.id == t.id then t ∷ us else u ∷ set_trade t us

unfoldable pub find_offer : ℕ → List Offer → Option Offer
find_offer id [] = none
find_offer id (o ∷ os) = if o.id == id then some o else find_offer id os

unfoldable pub set_offer : Offer → List Offer → List Offer
set_offer o [] = []
set_offer o (p ∷ ps) = if p.id == o.id then o ∷ ps else p ∷ set_offer o ps

-- The rows of `trade_transitions` (backend/src/db/migrations/0004_trading.ts).
unfoldable pub is_legal : TradeStatus → TradeStatus → Bool
is_legal opened escrow_locked = true
is_legal opened cancelled = true
is_legal escrow_locked payment_submitted = true
is_legal escrow_locked cancelled = true
is_legal escrow_locked expired = true
is_legal escrow_locked disputed = true
is_legal payment_submitted completed = true
is_legal payment_submitted disputed = true
is_legal payment_submitted cancelled = true
is_legal disputed resolved_release = true
is_legal disputed resolved_refund = true
is_legal _ _ = false

-- The trigger `trg_trade_fsm`: it looks only at updates that change the status.
unfoldable pub passes_trigger : TradeStatus → TradeStatus → Bool
passes_trigger from to = status_eq from to || is_legal from to

-- `escrowLocked(trade)`
abbrev pub escrow_locked_amount : Trade → ℕ
escrow_locked_amount trade = trade.amount + trade.seller_fee_amount

-- ---------------------------------------------------------------- transitions

unfoldable pub lock_trade : ℕ → Tx Db Trade
lock_trade trade_id db = elim (find_trade trade_id db.trades) [
  | none ↦ err (trade_not_found trade_id)
  | some t ↦ ok (t, db)
]

-- The columns that a transition may set beside the status.
pub record Extra : Type 0 where
  pub completed_at : Option ℕ
  pub escrow_journal_id : Option ℕ
  pub release_journal_id : Option ℕ
  pub payment_deadline : Option ℕ

abbrev pub no_extra : Extra
no_extra = record {
  completed_at = none;
  escrow_journal_id = none;
  release_journal_id = none;
  payment_deadline = none;
}

abbrev pub or_else : Option ℕ → Option ℕ → Option ℕ
or_else (some a) old = some a
or_else none old = old

abbrev pub moved_row : Trade → TradeStatus → Extra → Trade
moved_row row to extra = record row {
  status = to;
  completed_at = or_else extra.completed_at row.completed_at;
  escrow_journal_id = or_else extra.escrow_journal_id row.escrow_journal_id;
  release_journal_id = or_else extra.release_journal_id row.release_journal_id;
  payment_deadline = or_else extra.payment_deadline row.payment_deadline;
}

-- What is written once the guarded UPDATE has matched the row.
unfoldable pub write_transition :
    Trade → Trade → TradeStatus → Actor → Option String → Extra → Db → Db
write_transition row trade to actor metadata extra db = record db {
  trades = set_trade (moved_row row to extra) db.trades;
  trade_events =
      record {
        trade_id = trade.id;
        from_status = some trade.status;
        to_status = to;
        actor = actor;
        metadata = metadata;
      }
      ∷ db.trade_events;
  outbox = trade_moved trade.id trade.status to actor ∷ db.outbox;
}

-- `transition`: UPDATE … WHERE id AND status = from, the trigger on it, the event, the outbox row.
unfoldable pub transition : Trade → TradeStatus → Actor → Option String → Extra → Tx Db (Unit {0})
transition trade to actor metadata extra db = elim (find_trade trade.id db.trades) [
  | none ↦ err (illegal_transition trade.status to)
  | some row ↦
      if not (status_eq row.status trade.status)
      then err (illegal_transition trade.status to)
      else if not (passes_trigger row.status to)
      then err (pg raise_exception)
      else ok (tt, write_transition row trade to actor metadata extra db)
]

unfoldable pub record_creation : ℕ → Actor → Tx Db (Unit {0})
record_creation trade_id actor = modify λ db. record db {
  trade_events =
      record {
        trade_id = trade_id;
        from_status = none;
        to_status = opened;
        actor = actor;
        metadata = none;
      }
      ∷ db.trade_events;
  outbox = trade_opened trade_id actor ∷ db.outbox;
}
