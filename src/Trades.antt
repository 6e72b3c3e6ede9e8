-- ===== src/Trades.antt =====
-- TradesService (backend/src/modules/trades/trades.service.ts): opening a trade (Open), the proof of
-- payment, and the party-scoped reads. Confirming and cancelling are calls of the escrow.
unfoldable pub use Open.*
mod Open
pub mod Backing
pub mod Calls
pub mod Sound
pub mod Overdue
use text.Mathlib.Text.{starts_with}
use Prim.Native.String.{◌++◌}
use quata_trade.Prelude.{
  ℕ, String, Bool, true, false, not, ◌&&◌, ◌||◌, Option, none, some, List, [], ◌∷◌, ◌==◌,
  if◌then◌else◌,
}
use quata_trade.Domain.{TradeStatus, escrow_locked, payment_submitted, status_eq}
use quata_trade.Errors.{
  PgCode, trade_not_found, illegal_transition, invalid_proof, payment_already_submitted,
}
use quata_trade.Tx.{
  Result, ok, err, Tx, Service, pure, throw, throw_if, ◌>>=◌, ◌>>◌, with_money_transaction,
}
use quata_trade.Ledger.{buyer_actor}
use quata_trade.Db.{Db, Trade, TradePayment, TradeEvent}
use quata_trade.Escrow.{find_trade, lock_trade, transition, no_extra, confirm_release, cancel_trade}

pub record PaymentProof : Type 0 where
  pub reference : String
  pub sender_name : String
  pub sender_number : String
  pub proof_files : List String

unfoldable pub find_payment : ℕ → List TradePayment → Option TradePayment
find_payment id [] = none
find_payment id (p ∷ ps) = if p.trade_id == id then some p else find_payment id ps

-- Every key starts with `<trade id>/`; `text` writes an id out.
unfoldable pub all_in_folder : (ℕ → String) → ℕ → List String → Bool
all_in_folder text id [] = true
all_in_folder text id (key ∷ keys) = starts_with key (text id ++ "/") && all_in_folder text id keys

-- The INSERT, whose UNIQUE trade id admits one proof for a trade.
unfoldable pub insert_payment : TradePayment → Tx Db (Unit {0})
insert_payment p db = elim (find_payment p.trade_id db.trade_payments) [
  | some other ↦ err payment_already_submitted
  | none ↦ ok (tt, record db { trade_payments = p ∷ db.trade_payments })
]

unfoldable pub record_payment : Trade → ℕ → PaymentProof → Tx Db Trade
record_payment trade buyer_id dto = do
  insert_payment (record {
    trade_id = trade.id;
    reference = dto.reference;
    sender_name = dto.sender_name;
    sender_number = dto.sender_number;
    proof_files = dto.proof_files;
  })
  transition trade payment_submitted (buyer_actor buyer_id) (some dto.reference) no_extra
  pure (record trade { status = payment_submitted })

unfoldable pub submit_payment_tx : ℕ → ℕ → PaymentProof → Tx Db Trade
submit_payment_tx trade_id buyer_id dto = do
  trade ← lock_trade trade_id
  throw_if (not (trade.buyer_id == buyer_id)) (trade_not_found trade_id)
  throw_if (not (status_eq trade.status escrow_locked))
      (illegal_transition trade.status payment_submitted)
  record_payment trade buyer_id dto

unfoldable pub submit_payment :
    (ℕ → String) → (ℕ → Option PgCode) → ℕ → ℕ → PaymentProof → Service Db Trade
submit_payment text aborts trade_id buyer_id dto db =
    if not (all_in_folder text trade_id dto.proof_files)
    then (err invalid_proof, db)
    else with_money_transaction aborts (submit_payment_tx trade_id buyer_id dto) db

unfoldable pub confirm_trade : (ℕ → Option PgCode) → ℕ → ℕ → ℕ → Service Db Trade
confirm_trade aborts now trade_id seller_id = confirm_release aborts now trade_id seller_id

unfoldable pub cancel_opened_trade : (ℕ → Option PgCode) → ℕ → ℕ → Service Db Trade
cancel_opened_trade aborts trade_id user_id = cancel_trade aborts trade_id user_id

-- Before a proof is uploaded: only the buyer of a funded trade may. The file's own checks and the
-- store are outside this service.
unfoldable pub may_upload_proof : ℕ → ℕ → Db → Result (Unit {0})
may_upload_proof trade_id user_id db = elim (find_trade trade_id db.trades) [
  | none ↦ err (trade_not_found trade_id)
  | some trade ↦
      if not (trade.buyer_id == user_id)
      then err (trade_not_found trade_id)
      else if not (status_eq trade.status escrow_locked)
      then err (illegal_transition trade.status payment_submitted)
      else ok tt
]

-- A party of the trade.
abbrev pub is_party : Trade → ℕ → Bool
is_party trade user_id = trade.buyer_id == user_id || trade.seller_id == user_id

unfoldable pub get_trade_for_party : ℕ → ℕ → Db → Option Trade
get_trade_for_party trade_id user_id db = elim (find_trade trade_id db.trades) [
  | none ↦ none
  | some trade ↦ if is_party trade user_id then some trade else none
]

abbrev pub files_of : Option TradePayment → List String
files_of none = []
files_of (some p) = p.proof_files

-- The keys that `proofUrls` signs.
unfoldable pub proof_keys : ℕ → ℕ → Db → Result (List String)
proof_keys trade_id user_id db = elim (get_trade_for_party trade_id user_id db) [
  | none ↦ err (trade_not_found trade_id)
  | some trade ↦ ok (files_of (find_payment trade_id db.trade_payments))
]

abbrev pub at_end : TradeEvent → List TradeEvent → List TradeEvent
at_end e [] = e ∷ []
at_end e (d ∷ ds) = d ∷ at_end e ds

-- `getEvents`, the oldest first; the newest stands first in the table.
unfoldable pub get_events : ℕ → List TradeEvent → List TradeEvent
get_events trade_id [] = []
get_events trade_id (e ∷ es) =
    let rest = get_events trade_id es in if e.trade_id == trade_id then at_end e rest else rest
