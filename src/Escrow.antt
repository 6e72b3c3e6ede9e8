-- ===== src/Escrow.antt =====
-- EscrowService (backend/src/modules/escrow/escrow.service.ts), method by method. `now` is
-- `Date.now()`, and `aborts` what the database does to the attempts of a money transaction.
mod Rows
mod Money
pub mod Progress
pub mod History
pub mod Payouts
pub mod Replay
pub mod Effects
pub mod Backing
pub mod Settling
pub mod Aside
pub mod Solvent
pub mod Transactions
pub mod Refunds
pub mod Expiry
pub mod Keeps
unfoldable pub use Rows.*
unfoldable pub use Money.*
use quata_trade.Prelude.{
  ℕ, ◌+◌, ℤ, pos, ◌-ℤ◌, neg_ℤ, String, Bool, true, false, not, ◌&&◌, ◌||◌, Option, none, some, List,
  [], ◌∷◌, ltb, leb, ◌==◌, if◌then◌else◌,
}
use quata_trade.Domain.{
  TradeStatus, opened, escrow_locked, payment_submitted, completed, cancelled, expired, disputed,
  resolved_release, resolved_refund, status_eq, OfferStatus, active, paused, exhausted, deleted,
  DisputeResolution, release_to_buyer, refund_to_seller, user_available, user_escrow,
  platform_treasury, escrow_lock, escrow_release_buyer, escrow_refund,
}
use quata_trade.Errors.{Error, trade_not_found, illegal_transition, pg, PgCode, raise_exception}
use quata_trade.Tx.{
  Result, ok, err, Tx, Service, pure, throw, throw_if, gets, modify, or_throw, ◌>>=◌, ◌>>◌,
  with_money_transaction,
}
use quata_trade.Ledger.{
  Actor, seller_actor, buyer_actor, user_actor, admin_actor, system, Key, word, uuid, trade_ref,
  Leg, JournalInput, JournalResult, Ledger, get_or_create_account, post_journal,
}
use quata_trade.Db.{Db, Trade, Offer, TradeEvent, trade_opened, trade_moved, on_ledger}

abbrev pub is_some : {A : Type 0} → Option A → Bool
is_some none = false
is_some (some a) = true

unfoldable pub release_and_complete : ℕ → Trade → ℕ → Tx Db Trade
release_and_complete now trade seller_id = do
  journal_id ← post_release trade (seller_actor seller_id)
  transition trade completed (seller_actor seller_id) none
      (record no_extra { completed_at = some now; release_journal_id = some journal_id })
  pure (record trade { status = completed; release_journal_id = some journal_id })

unfoldable pub confirm_release_tx : ℕ → ℕ → ℕ → Tx Db Trade
confirm_release_tx now trade_id seller_id = do
  trade ← lock_trade trade_id
  throw_if (not (trade.seller_id == seller_id)) (trade_not_found trade_id)
  if status_eq trade.status completed && is_some trade.release_journal_id
      then pure trade
      else if not (status_eq trade.status payment_submitted)
      then throw (illegal_transition trade.status completed)
      else release_and_complete now trade seller_id

unfoldable pub confirm_release : (ℕ → Option PgCode) → ℕ → ℕ → ℕ → Service Db Trade
confirm_release aborts now trade_id seller_id =
    with_money_transaction aborts (confirm_release_tx now trade_id seller_id)

unfoldable pub cancel_unfunded : Trade → Actor → Tx Db Trade
cancel_unfunded trade actor = do
  transition trade cancelled actor none no_extra
  pure (record trade { status = cancelled })

unfoldable pub cancel_and_refund : Trade → Actor → Tx Db Trade
cancel_and_refund trade actor = do
  restock_offer trade.offer_id trade.amount
  post_refund trade actor
  transition trade cancelled actor none no_extra
  pure (record trade { status = cancelled })

unfoldable pub cancel_trade_tx : ℕ → ℕ → Tx Db Trade
cancel_trade_tx trade_id actor_user_id = do
  trade ← lock_trade trade_id
  throw_if (not (trade.buyer_id == actor_user_id)) (trade_not_found trade_id)
  if status_eq trade.status cancelled
      then pure trade
      else if status_eq trade.status opened
      then cancel_unfunded trade (buyer_actor actor_user_id)
      else if not (status_eq trade.status escrow_locked)
          && not (status_eq trade.status payment_submitted)
      then throw (illegal_transition trade.status cancelled)
      else cancel_and_refund trade (buyer_actor actor_user_id)

unfoldable pub cancel_trade : (ℕ → Option PgCode) → ℕ → ℕ → Service Db Trade
cancel_trade aborts trade_id actor_user_id =
    with_money_transaction aborts (cancel_trade_tx trade_id actor_user_id)

-- `!payment_deadline || payment_deadline > now`
abbrev pub not_due : Option ℕ → ℕ → Bool
not_due none now = true
not_due (some deadline) now = ltb now deadline

unfoldable pub expire_and_refund : Trade → Tx Db Bool
expire_and_refund trade = do
  restock_offer trade.offer_id trade.amount
  post_refund trade system
  transition trade expired system none no_extra
  pure true

unfoldable pub expire_trade_tx : ℕ → ℕ → Tx Db Bool
expire_trade_tx now trade_id = do
  trade ← lock_trade trade_id
  if not (status_eq trade.status escrow_locked)
      then pure false
      else if not_due trade.payment_deadline now
      then pure false
      else expire_and_refund trade

unfoldable pub expire_trade : (ℕ → Option PgCode) → ℕ → ℕ → Service Db Bool
expire_trade aborts now trade_id = with_money_transaction aborts (expire_trade_tx now trade_id)

unfoldable pub mark_disputed : Trade → ℕ → Tx Db (Unit {0})
mark_disputed trade actor_user_id =
    if not (status_eq trade.status escrow_locked) && not (status_eq trade.status payment_submitted)
    then throw (illegal_transition trade.status disputed)
    else transition trade disputed (user_actor actor_user_id) none no_extra

-- The status that a resolution leads to.
abbrev pub resolved_status : DisputeResolution → TradeStatus
resolved_status release_to_buyer = resolved_release
resolved_status refund_to_seller = resolved_refund

unfoldable pub apply_resolution : ℕ → Trade → Actor → DisputeResolution → Tx Db Trade
apply_resolution now trade actor release_to_buyer = do
  journal_id ← post_release trade actor
  transition trade resolved_release actor none
      (record no_extra { completed_at = some now; release_journal_id = some journal_id })
  pure (record trade { status = resolved_release; release_journal_id = some journal_id })
apply_resolution now trade actor refund_to_seller = do
  restock_offer trade.offer_id trade.amount
  journal_id ← post_refund trade actor
  transition trade resolved_refund actor none
      (record no_extra { release_journal_id = some journal_id })
  pure (record trade { status = resolved_refund; release_journal_id = some journal_id })

unfoldable pub resolve_dispute_tx : ℕ → ℕ → ℕ → DisputeResolution → Tx Db Trade
resolve_dispute_tx now trade_id admin_id resolution = do
  trade ← lock_trade trade_id
  if status_eq trade.status (resolved_status resolution)
      then pure trade
      else if not (status_eq trade.status disputed)
      then throw (illegal_transition trade.status (resolved_status resolution))
      else apply_resolution now trade (admin_actor admin_id) resolution

unfoldable pub resolve_dispute :
    (ℕ → Option PgCode) → ℕ → ℕ → ℕ → DisputeResolution → Service Db Trade
resolve_dispute aborts now trade_id admin_id resolution =
    with_money_transaction aborts (resolve_dispute_tx now trade_id admin_id resolution)
