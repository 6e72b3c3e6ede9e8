-- ===== src/Disputes.antt =====
-- DisputesService and `resolve` of DisputesAdminService
-- (backend/src/modules/disputes/disputes.service.ts, disputes-admin.service.ts).
unfoldable pub use Rows.*
unfoldable pub use Submit.*
unfoldable pub use Resolve.*
mod Rows
mod Submit
mod Resolve
pub mod Backing
use text.Mathlib.Text.{starts_with, find?}
use Prim.Native.String.{◌++◌}
use quata_trade.Prelude.{
  ℕ, ◌+◌, pos, neg_ℤ, String, Bool, true, false, not, ◌&&◌, ◌||◌, Option, none, some, List, [], ◌∷◌,
  ltb, ◌==◌, if◌then◌else◌,
}
use quata_trade.Domain.{
  escrow_locked, payment_submitted, disputed, status_eq, DisputeStatus, open_dispute,
  awaiting_evidence, under_review, resolved, DisputeResolution, release_to_buyer, refund_to_seller,
  user_available, platform_treasury, dispute_fee,
}
use quata_trade.Errors.{
  PgCode, trade_not_found, illegal_transition, dispute_not_found, dispute_already_open,
  dispute_resolved, conflicting_resolution, invalid_evidence_file, no_result,
}
use quata_trade.Tx.{
  Result, ok, err, Tx, Service, pure, throw_if, gets, modify, or_throw, ◌>>=◌, ◌>>◌, execute,
  with_money_transaction,
}
use quata_trade.Ledger.{bare_actor, word, uuid, dispute_ref, get_or_create_account, post_journal}
use quata_trade.Db.{
  Db, Trade, Dispute, Evidence, on_ledger, dispute_opened, dispute_resolved_event,
  audit_dispute_opened, audit_dispute_resolved,
}
use quata_trade.Tables.{enqueue_outbox, audit}
use quata_trade.Escrow.{find_trade, lock_trade, mark_disputed, resolve_dispute}

-- ------------------------------------------------- opening

unfoldable pub insert_dispute : ℕ → ℕ → ℕ → String → Tx Db (Unit {0})
insert_dispute id trade_id user_id reason db =
    if has_dispute trade_id db.disputes
    then err dispute_already_open
    else ok (
      tt,
      record db {
        disputes =
            record {
              id = id;
              trade_id = trade_id;
              opened_by = user_id;
              reason = reason;
              status = open_dispute;
              resolution = none;
              resolved_by = none;
              resolution_notes = none;
              resolved_at = none;
            }
            ∷ db.disputes;
      },
    )

-- The opener pays the fee.
unfoldable pub charge_dispute_fee : ℕ → ℕ → Trade → ℕ → Tx Db (Unit {0})
charge_dispute_fee fee dispute_id trade user_id = do
  opener ← on_ledger (get_or_create_account (some user_id) user_available trade.asset)
  treasury ← on_ledger (get_or_create_account none platform_treasury trade.asset)
  posted ← on_ledger (
      post_journal (record {
        reason = dispute_fee;
        reference_type = dispute_ref;
        reference_id = dispute_id;
        idempotency_key = word "dispute_fee" ∷ uuid dispute_id ∷ [];
        created_by = bare_actor user_id;
        asset = trade.asset;
        legs =
            record { account_id = opener; amount = neg_ℤ (pos fee) }
            ∷ record { account_id = treasury; amount = pos fee }
            ∷ [];
      }))
  pure tt

-- From the insert on: everything that writes.
unfoldable pub write_dispute : ℕ → ℕ → Trade → ℕ → String → Tx Db (Unit {0})
write_dispute fee dispute_id trade user_id reason = do
  insert_dispute dispute_id trade.id user_id reason
  if ltb 0 fee then charge_dispute_fee fee dispute_id trade user_id else pure tt
  mark_disputed trade user_id
  enqueue_outbox (dispute_opened dispute_id trade.id user_id)
  audit (audit_dispute_opened user_id dispute_id)

unfoldable pub open_dispute_tx : ℕ → ℕ → ℕ → ℕ → String → Tx Db Dispute
open_dispute_tx fee dispute_id trade_id user_id reason = do
  trade ← lock_trade trade_id
  throw_if (not (trade.buyer_id == user_id) && not (trade.seller_id == user_id))
      (trade_not_found trade_id)
  throw_if
      (not (status_eq trade.status escrow_locked) && not (status_eq trade.status payment_submitted))
      (illegal_transition trade.status disputed)
  write_dispute fee dispute_id trade user_id reason
  row ← gets (λ db. find_dispute dispute_id db.disputes)
  or_throw row no_result

-- `newId()` is called before the transaction begins.
unfoldable pub open_dispute_on : (ℕ → Option PgCode) → ℕ → ℕ → ℕ → String → Service Db Dispute
open_dispute_on aborts fee trade_id user_id reason db =
    with_money_transaction aborts (open_dispute_tx fee db.next_id trade_id user_id reason)
      (record db { next_id = db.next_id + 1 })
