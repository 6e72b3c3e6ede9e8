-- ===== src/Escrow/Money.antt =====
-- The journals of EscrowService (backend/src/modules/escrow/escrow.service.ts): lock, release and
-- refund, and the offer's restocking.
use quata_trade.Prelude.{
  ℕ, ◌+◌, ℤ, pos, ◌-ℤ◌, neg_ℤ, String, none, some, List, [], ◌∷◌, ltb, if◌then◌else◌,
}
use quata_trade.Domain.{
  escrow_locked, OfferStatus, active, paused, exhausted, deleted, user_available, user_escrow,
  platform_treasury, escrow_lock, escrow_release_buyer, escrow_refund,
}
use quata_trade.Tx.{ok, Tx, pure, ◌>>=◌}
use quata_trade.Ledger.{Actor, Key, word, uuid, trade_ref, Leg, get_or_create_account, post_journal}
use quata_trade.Db.{Db, Trade, Offer, on_ledger}
use quata_trade.Escrow.Rows.{find_offer, set_offer, escrow_locked_amount, transition, no_extra}

-- The keys `trade:<id>:lock`, `trade:<id>:release` and `trade:<id>:refund`.
abbrev pub trade_key : ℕ → String → Key
trade_key id action = word "trade" ∷ uuid id ∷ word action ∷ []

abbrev pub trade_legs : ℕ → ℤ → ℕ → ℤ → List Leg
trade_legs a v b w =
    record { account_id = a; amount = v } ∷ record { account_id = b; amount = w } ∷ []

unfoldable pub lock_escrow : Trade → Actor → ℕ → Tx Db (Unit {0})
lock_escrow trade actor payment_deadline = do
  let seller_lock = escrow_locked_amount trade
  seller_available ←
      on_ledger (get_or_create_account (some trade.seller_id) user_available trade.asset)
  seller_escrow ← on_ledger (get_or_create_account (some trade.seller_id) user_escrow trade.asset)
  journal ← on_ledger (
      post_journal (record {
        reason = escrow_lock;
        reference_type = trade_ref;
        reference_id = trade.id;
        idempotency_key = trade_key trade.id "lock";
        created_by = actor;
        asset = trade.asset;
        legs =
            trade_legs seller_available (neg_ℤ (pos seller_lock)) seller_escrow (pos seller_lock);
      }))
  transition trade escrow_locked actor none (record no_extra {
    escrow_journal_id = some journal.journal_id;
    payment_deadline = some payment_deadline;
  })

-- The legs of a release: the treasury's only where there is a fee.
abbrev pub release_legs : Trade → ℕ → ℕ → ℕ → List Leg
release_legs trade seller_escrow buyer_available treasury =
    let locked = escrow_locked_amount trade in
    let buyer_credit = pos trade.amount -ℤ pos trade.fee_amount in
    let total_fee = trade.fee_amount + trade.seller_fee_amount in
    if ltb 0 total_fee
    then record { account_id = seller_escrow; amount = neg_ℤ (pos locked) }
      ∷ record { account_id = buyer_available; amount = buyer_credit }
      ∷ record { account_id = treasury; amount = pos total_fee }
      ∷ []
    else trade_legs seller_escrow (neg_ℤ (pos locked)) buyer_available buyer_credit

unfoldable pub post_release : Trade → Actor → Tx Db ℕ
post_release trade actor = do
  seller_escrow ← on_ledger (get_or_create_account (some trade.seller_id) user_escrow trade.asset)
  buyer_available ←
      on_ledger (get_or_create_account (some trade.buyer_id) user_available trade.asset)
  treasury ← on_ledger (get_or_create_account none platform_treasury trade.asset)
  journal ← on_ledger (
      post_journal (record {
        reason = escrow_release_buyer;
        reference_type = trade_ref;
        reference_id = trade.id;
        idempotency_key = trade_key trade.id "release";
        created_by = actor;
        asset = trade.asset;
        legs = release_legs trade seller_escrow buyer_available treasury;
      }))
  pure journal.journal_id

unfoldable pub post_refund : Trade → Actor → Tx Db ℕ
post_refund trade actor = do
  let locked = escrow_locked_amount trade
  seller_escrow ← on_ledger (get_or_create_account (some trade.seller_id) user_escrow trade.asset)
  seller_available ←
      on_ledger (get_or_create_account (some trade.seller_id) user_available trade.asset)
  journal ← on_ledger (
      post_journal (record {
        reason = escrow_refund;
        reference_type = trade_ref;
        reference_id = trade.id;
        idempotency_key = trade_key trade.id "refund";
        created_by = actor;
        asset = trade.asset;
        legs = trade_legs seller_escrow (neg_ℤ (pos locked)) seller_available (pos locked);
      }))
  pure journal.journal_id

abbrev restocked_status : OfferStatus → OfferStatus
restocked_status exhausted = active
restocked_status s = s

abbrev pub restock : ℕ → Offer → Db → Db
restock amount o db = record db {
  offers =
      set_offer (record o { remaining = o.remaining + amount; status = restocked_status o.status })
        db.offers;
}

unfoldable pub restock_row : ℕ → Offer → OfferStatus → Db → Db
restock_row amount o deleted db = db
restock_row amount o active db = restock amount o db
restock_row amount o paused db = restock amount o db
restock_row amount o exhausted db = restock amount o db

unfoldable pub restock_offer : ℕ → ℕ → Tx Db (Unit {0})
unfolding restock_row
restock_offer offer_id amount db = elim (find_offer offer_id db.offers) [
  | none ↦ ok (tt, db)
  | some o ↦ ok (tt, restock_row amount o o.status db)
]
