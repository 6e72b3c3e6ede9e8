-- ===== src/Trades/Sound.antt =====
-- The services that drive trades (backend/src/modules/trades, escrow, disputes) keep a consistent
-- ledger consistent.
use quata_trade.Prelude.{
  ℕ, Bool-cases, Option, none, some, Option-cases, inl, inr, String, leb, ◌==◌, ◌||◌,
}
use quata_trade.Domain.{DisputeResolution, resolved}
use quata_trade.Errors.{PgCode, no_result}
use quata_trade.Tx.{Result, ok, err, Tx, lift, gets, or_throw}
use quata_trade.Tx.Preserves.{
  Preserves, preserves_rules, Preserves-bind, with_money_transaction-keeps, execute-keeps,
}
use quata_trade.Ledger.{Actor}
use quata_trade.Ledger.Invariant.{IsConsistent}
use quata_trade.Db.{Db, Trade, Offer, TradePayment, Dispute, OutboxEvent, AuditEntry}
use quata_trade.Tables.{new_id, enqueue_outbox, audit}
use quata_trade.Fees.{PerSideSplit}
use quata_trade.Escrow.{find_offer, record_creation, resolve_dispute}
use quata_trade.Escrow.Keeps.{
  lock_trade-Preserves, lock_escrow-Preserves, mark_disputed-Preserves, resolve_dispute-Preserves,
}
use quata_trade.Escrow.History.{LedgerIsConsistent, LedgerIsConsistent-Survives}
use quata_trade.Trades.{
  OpenTradeRequest, TradeSettings, PaymentProof, decrement_offer, insert_trade, create_trade,
  lock_offer, open_trade_tx, find_payment, insert_payment, record_payment, submit_payment_tx,
}
use quata_trade.Disputes.{
  has_dispute, find_dispute, insert_dispute, charge_dispute_fee, write_dispute, open_dispute_tx,
  dispute_status_eq, same_resolution, record_resolution, after_money, resolve,
}

abbrev Sound : {A : Type 0} → Tx Db A → Type 0
Sound m = Preserves LedgerIsConsistent m

lift-Sound : {A : Type 0} (r : Result A) → Sound (lift r)
lift-Sound (ok a) = record { at = λ db h. h }
lift-Sound (err e) = record { at = λ db h. tt }

gets-Sound : {A : Type 0} (f : Db → A) → Sound (gets f)
gets-Sound f = record { at = λ db h. h }

lock_offer-Sound : (id : ℕ) → Sound (lock_offer id)
unfolding lock_offer
lock_offer-Sound id = record {
  at = λ db h. elim (Option-cases (find_offer id db.offers)) [
    | inl absent ↦ rw (absent, lock_offer) tt
    | inr (o, found) ↦ rw (found, lock_offer) h
  ];
}

decrement_offer-Sound : (id amount : ℕ) → Sound (decrement_offer id amount)
unfolding decrement_offer
decrement_offer-Sound id amount = record {
  at = λ db h. elim (Option-cases (find_offer id db.offers)) [
    | inl absent ↦ rw (absent, decrement_offer) tt
    | inr (row, found) ↦ elim (Bool-cases (leb amount row.remaining)) [
      | inl enough ↦ rw (found, decrement_offer, enough) h
      | inr short ↦ rw (found, decrement_offer, short) tt
    ]
  ];
}

new_id-Sound : Sound new_id
unfolding new_id
new_id-Sound = record { at = λ db h. h }

insert_trade-Sound : (t : Trade) → Sound (insert_trade t)
unfolding insert_trade
insert_trade-Sound t = record {
  at = λ db h.
      elim (Bool-cases (t.amount == 0 || t.buyer_id == t.seller_id || leb t.amount t.fee_amount)) [
        | inl bad ↦ simp bad tt
        | inr good ↦ simp good h
      ];
}

record_creation-Sound : (id : ℕ) (actor : Actor) → Sound (record_creation id actor)
unfolding record_creation
record_creation-Sound id actor = record { at = λ db h. h }

create_trade-Sound :
    (s : TradeSettings) (offer : Offer) (taker : ℕ) (dto : OpenTradeRequest) (fees : PerSideSplit)
    (fiat : ℕ)
    → Sound (create_trade s offer taker dto fees fiat)
unfolding create_trade
create_trade-Sound s offer taker dto fees fiat =
    search
      (
        preserves_rules, decrement_offer-Sound, new_id-Sound, insert_trade-Sound,
        record_creation-Sound, lock_escrow-Preserves, LedgerIsConsistent-Survives,
      )
      depth 20

pub open_trade-Sound :
    (s : TradeSettings) (taker : ℕ) (dto : OpenTradeRequest) → Sound (open_trade_tx s taker dto)
unfolding open_trade_tx
open_trade-Sound s taker dto =
    search (preserves_rules, lock_offer-Sound, lift-Sound, gets-Sound, create_trade-Sound) depth 30

insert_payment-Sound : (p : TradePayment) → Sound (insert_payment p)
unfolding insert_payment
insert_payment-Sound p = record {
  at = λ db h. elim (Option-cases (find_payment p.trade_id db.trade_payments)) [
    | inl new ↦ rw (new, insert_payment) h
    | inr (q, found) ↦ rw (found, insert_payment) tt
  ];
}

pub submit_payment-Sound :
    (id buyer : ℕ) (dto : PaymentProof) → Sound (submit_payment_tx id buyer dto)
unfolding submit_payment_tx record_payment
submit_payment-Sound id buyer dto =
    let move = LedgerIsConsistent-Survives.move in
    search
      (
        preserves_rules, lock_trade-Preserves, LedgerIsConsistent-Survives, insert_payment-Sound,
        move,
      )
      depth 20

-- ------------------------------------------------- disputes

insert_dispute-Sound :
    (id trade_id user : ℕ) (reason : String) → Sound (insert_dispute id trade_id user reason)
unfolding insert_dispute
insert_dispute-Sound id trade_id user reason = record {
  at = λ db h. elim (Bool-cases (has_dispute trade_id db.disputes)) [
    | inl old ↦ rw (old, insert_dispute) tt
    | inr new ↦ rw (new, insert_dispute) h
  ];
}

charge_dispute_fee-Sound :
    (fee id : ℕ) (t : Trade) (user : ℕ) → Sound (charge_dispute_fee fee id t user)
unfolding charge_dispute_fee
charge_dispute_fee-Sound fee id t user =
    let account = LedgerIsConsistent-Survives.account in
    let posting = LedgerIsConsistent-Survives.posting in
    search (preserves_rules, account, posting) depth 12

enqueue-Sound : (e : OutboxEvent) → Sound (enqueue_outbox e)
unfolding enqueue_outbox
enqueue-Sound e = record { at = λ db h. h }

audit-Sound : (e : AuditEntry) → Sound (audit e)
unfolding audit
audit-Sound e = record { at = λ db h. h }

or_throw-Sound : (row : Option Dispute) → Sound (or_throw row no_result)
or_throw-Sound none = record { at = λ db h. tt }
or_throw-Sound (some d) = record { at = λ db h. h }

pub open_dispute-Sound :
    (fee id trade_id user : ℕ) (reason : String)
    → Sound (open_dispute_tx fee id trade_id user reason)
unfolding open_dispute_tx write_dispute
open_dispute-Sound fee id trade_id user reason =
    search
      (
        preserves_rules, lock_trade-Preserves, LedgerIsConsistent-Survives, insert_dispute-Sound,
        charge_dispute_fee-Sound, mark_disputed-Preserves, enqueue-Sound, audit-Sound, gets-Sound,
        or_throw-Sound,
      )
      depth 30

record_resolution-Sound :
    (now id admin : ℕ) (r : DisputeResolution) (notes : String)
    → Sound (record_resolution now id admin r notes)
unfolding record_resolution enqueue_outbox audit
record_resolution-Sound now id admin r notes = record {
  at = λ db h. elim (Option-cases (find_dispute id db.disputes)) [
    | inl absent ↦ rw (absent, record_resolution) h
    | inr (d, found) ↦ elim (Bool-cases (dispute_status_eq d.status resolved)) [
      | inl done ↦ rw (found, record_resolution, done) h
      | inr live ↦ rw (found, record_resolution, live) h
    ]
  ];
}

after_money-Sound :
    (now : ℕ) (d : Dispute) (admin : ℕ) (r : DisputeResolution) (notes : String)
    (p : Result Trade × Db)
    → IsConsistent p.1.ledger
    → IsConsistent (after_money now d admin r notes p).1.ledger
unfolding after_money
after_money-Sound now d admin r notes (err e, db) h = h
after_money-Sound now d admin r notes (ok t, db) h =
    execute-keeps _ db
      (Preserves-bind _ _ (record_resolution-Sound now d.id admin r notes)
        (λ applied. record { at = λ s k. k }))
      h

pub resolve-Sound :
    (aborts : ℕ → Option PgCode) (now id admin : ℕ) (r : DisputeResolution) (notes : String)
    (db : Db)
    → IsConsistent db.ledger
    → IsConsistent (resolve aborts now id admin r notes db).1.ledger
unfolding resolve resolve_dispute
resolve-Sound aborts now id admin r notes db h = elim (Option-cases (find_dispute id db.disputes)) [
  | inl absent ↦ rw (absent, resolve) h
  | inr (d, found) ↦ elim (Bool-cases (dispute_status_eq d.status resolved)) [
    | inl done ↦ elim (Bool-cases (same_resolution d.resolution r)) [
      | inl same ↦ rw (found, resolve, done, same) h
      | inr other ↦ rw (found, resolve, done, other) h
    ]
    | inr live ↦
        rw (found, resolve, live)
          (after_money-Sound now d admin r notes _ (
            with_money_transaction-keeps aborts _ db
              (resolve_dispute-Preserves LedgerIsConsistent-Survives now d.trade_id admin r) h))
  ]
]
