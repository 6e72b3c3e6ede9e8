-- ===== src/Escrow/Keeps.antt =====
-- What a predicate on the database must survive for the transactions of EscrowService
-- (backend/src/modules/escrow/escrow.service.ts) to keep it.
use quata_trade.Prelude.{ℕ, Option, Option-cases, inl, inr, String}
use quata_trade.Domain.{
  TradeStatus, OfferStatus, active, paused, exhausted, deleted, AccountKind, AssetCode,
  DisputeResolution, release_to_buyer, refund_to_seller,
}
use quata_trade.Tx.Preserves.{Preserves, preserves_rules}
use quata_trade.Ledger.{Actor, JournalInput, get_or_create_account, post_journal}
use quata_trade.Db.{Db, Trade, Offer, on_ledger}
use quata_trade.Escrow.{
  Extra, find_trade, find_offer, lock_trade, transition, restock, restock_row, restock_offer,
  lock_escrow, post_release, post_refund, release_and_complete, confirm_release_tx, cancel_unfunded,
  cancel_and_refund, cancel_trade_tx, expire_and_refund, expire_trade_tx, mark_disputed,
  apply_resolution, resolve_dispute_tx,
}

-- The writes of the escrow, each of which keeps `P`.
pub record Survives (P : Db → Type 0) : Type 0 where
  pub account :
      (o : Option ℕ) (k : AccountKind) (c : AssetCode)
      → Preserves P (on_ledger (get_or_create_account o k c))
  pub posting : (input : JournalInput) → Preserves P (on_ledger (post_journal input))
  pub move :
      (t : Trade) (to : TradeStatus) (actor : Actor) (m : Option String) (x : Extra)
      → Preserves P (transition t to actor m x)
  pub restocking : (amount : ℕ) (o : Offer) (db : Db) → P db → P (restock amount o db)

module _ {P : Db → Type 0} (s : Survives P) where
  pub lock_trade-Preserves : (id : ℕ) → Preserves P (lock_trade id)
  unfolding lock_trade
  lock_trade-Preserves id = record {
    at = λ db h. elim (Option-cases (find_trade id db.trades)) [
      | inl absent ↦ rw (absent, lock_trade) tt
      | inr (t, found) ↦ rw (found, lock_trade) h
    ];
  }

  restock_row-keeps :
      (amount : ℕ) (o : Offer) (st : OfferStatus) (db : Db) → P db → P (restock_row amount o st db)
  unfolding restock_row
  restock_row-keeps amount o deleted db h = h
  restock_row-keeps amount o active db h = s.restocking amount o db h
  restock_row-keeps amount o paused db h = s.restocking amount o db h
  restock_row-keeps amount o exhausted db h = s.restocking amount o db h

  restock_offer-Preserves : (id amount : ℕ) → Preserves P (restock_offer id amount)
  unfolding restock_offer
  restock_offer-Preserves id amount = record {
    at = λ db h. elim (Option-cases (find_offer id db.offers)) [
      | inl absent ↦ rw (absent, restock_offer) h
      | inr (o, found) ↦ rw (found, restock_offer) (restock_row-keeps amount o o.status db h)
    ];
  }

  pub post_release-Preserves : (t : Trade) (actor : Actor) → Preserves P (post_release t actor)
  unfolding post_release
  post_release-Preserves t actor = search (preserves_rules, s.account, s.posting) depth 12

  pub post_refund-Preserves : (t : Trade) (actor : Actor) → Preserves P (post_refund t actor)
  unfolding post_refund
  post_refund-Preserves t actor = search (preserves_rules, s.account, s.posting) depth 12

  pub lock_escrow-Preserves :
      (t : Trade) (actor : Actor) (deadline : ℕ) → Preserves P (lock_escrow t actor deadline)
  unfolding lock_escrow
  lock_escrow-Preserves t actor deadline =
      search (preserves_rules, s.account, s.posting, s.move) depth 12

  release_and_complete-Preserves :
      (now : ℕ) (t : Trade) (seller : ℕ) → Preserves P (release_and_complete now t seller)
  unfolding release_and_complete
  release_and_complete-Preserves now t seller =
      search (preserves_rules, post_release-Preserves, s.move) depth 12

  pub confirm_release-Preserves :
      (now id seller : ℕ) → Preserves P (confirm_release_tx now id seller)
  unfolding confirm_release_tx
  confirm_release-Preserves now id seller =
      search (preserves_rules, lock_trade-Preserves, release_and_complete-Preserves) depth 12

  cancel_unfunded-Preserves : (t : Trade) (actor : Actor) → Preserves P (cancel_unfunded t actor)
  unfolding cancel_unfunded
  cancel_unfunded-Preserves t actor = search (preserves_rules, s.move) depth 12

  cancel_and_refund-Preserves :
      (t : Trade) (actor : Actor) → Preserves P (cancel_and_refund t actor)
  unfolding cancel_and_refund
  cancel_and_refund-Preserves t actor =
      search (preserves_rules, restock_offer-Preserves, post_refund-Preserves, s.move) depth 12

  pub cancel_trade-Preserves : (id user : ℕ) → Preserves P (cancel_trade_tx id user)
  unfolding cancel_trade_tx
  cancel_trade-Preserves id user =
      search
        (
          preserves_rules, lock_trade-Preserves, cancel_unfunded-Preserves,
          cancel_and_refund-Preserves,
        )
        depth 14

  expire_and_refund-Preserves : (t : Trade) → Preserves P (expire_and_refund t)
  unfolding expire_and_refund
  expire_and_refund-Preserves t =
      search (preserves_rules, restock_offer-Preserves, post_refund-Preserves, s.move) depth 12

  pub expire_trade-Preserves : (now id : ℕ) → Preserves P (expire_trade_tx now id)
  unfolding expire_trade_tx
  expire_trade-Preserves now id =
      search (preserves_rules, lock_trade-Preserves, expire_and_refund-Preserves) depth 12

  pub mark_disputed-Preserves : (t : Trade) (user : ℕ) → Preserves P (mark_disputed t user)
  unfolding mark_disputed
  mark_disputed-Preserves t user = search (preserves_rules, s.move) depth 12

  apply_resolution-Preserves :
      (now : ℕ) (t : Trade) (actor : Actor) (r : DisputeResolution)
      → Preserves P (apply_resolution now t actor r)
  unfolding apply_resolution
  apply_resolution-Preserves now t actor release_to_buyer =
      search (preserves_rules, post_release-Preserves, s.move) depth 12
  apply_resolution-Preserves now t actor refund_to_seller =
      search (preserves_rules, restock_offer-Preserves, post_refund-Preserves, s.move) depth 12

  pub resolve_dispute-Preserves :
      (now id admin : ℕ) (r : DisputeResolution) → Preserves P (resolve_dispute_tx now id admin r)
  unfolding resolve_dispute_tx
  resolve_dispute-Preserves now id admin r =
      search (preserves_rules, lock_trade-Preserves, apply_resolution-Preserves) depth 12
