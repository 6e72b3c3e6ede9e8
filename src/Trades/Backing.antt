-- ===== src/Trades/Backing.antt =====
-- Opening a trade and submitting a payment (backend/src/modules/trades/trades.service.ts) leave the
-- escrow accounts backed.
use quata_trade.Prelude.{
  ℕ, ◌+◌, ◌<◌, ◌≡◌, refl, sym, ap, ◌∙◌, pos, zero_+ℤ, Bool-cases, true, false, not, ◌||◌, none,
  some, Option-cases, inl, inr, ◌∷◌, ◌==◌, leb, arith,
}
use mathlib.Core.Path.{subst}
use quata_trade.Domain.{TradeStatus, opened, escrow_locked, payment_submitted, status_eq}
use quata_trade.Errors.{trade_not_found, illegal_transition}
use quata_trade.Tx.{Result, ok, err, lift, gets}
use quata_trade.Tx.Guards.{ok_inj}
use quata_trade.Tx.Preserves.{Preserves, preserves_rules}
use quata_trade.Tx.Ensures.{
  Ensures, Ensures-run, Ensures-guard, Ensures-bind, Ensures-then, Ensures-Preserves,
}
use quata_trade.Ledger.{Actor}
use quata_trade.Ledger.Holdings.{Ref, ref_eq}
use quata_trade.Escrow.Effects.{escrowed}
use quata_trade.Db.{Db, Trade, Offer, TradePayment}
use quata_trade.Tables.{new_id}
use quata_trade.Fees.{PerSideSplit}
use quata_trade.Escrow.{find_trade, find_offer, record_creation}
use quata_trade.Escrow.Backing.{Backed, AllFree, KeysFree, locked_in, share, escrow_of}
use quata_trade.Escrow.Aside.{Backed-same}
use quata_trade.Escrow.Solvent.{Reading, Ensures-lock, lock_keeps, quiet_move}
use quata_trade.Trades.{
  OpenTradeRequest, TradeSettings, decrement_offer, insert_trade, opened_trade, create_trade,
  lock_offer, open_trade_tx, PaymentProof, find_payment, insert_payment, record_payment,
  submit_payment_tx,
}

-- An id that no trade has and no journal names.
record Fresh (id : ℕ) (db : Db) : Type 0 where
  backed : Backed db
  absent : find_trade id db.trades ≡ none
  free : AllFree id db.ledger.journals
  older : id < db.next_id

given_Fresh : (db db' : Db) (id : ℕ) → Backed db → new_id db ≡ ok (id, db') → Fresh id db'
unfolding new_id
given_Fresh db db' id h e =
    let same_id : id ≡ db.next_id = ap (λ p. p.0) (ok_inj e) in
    let same_db : db' ≡ record db { next_id = db.next_id + 1 } = ap (λ p. p.1) (ok_inj e) in
    let (absent, free) = h.future db.next_id (omega arith) in
    simp (same_id, same_db)
      (record {
        backed = record {
          indexed = h.indexed;
          backed = h.backed;
          keys = h.keys;
          future = λ i later. h.future i (omega arith);
        };
        absent = absent;
        free = free;
        older = omega arith;
      })

no_share : (t : Trade) (s : Ref) → t.status ≡ opened → share s t ≡ pos 0
unfolding share
no_share t s opens = elim (Bool-cases (ref_eq (escrowed t) s)) [
  | inl same ↦ rw (same, opens) refl
  | inr other ↦ rw other refl
]

inserted :
    (t : Trade) (db : Db)
    → t.status ≡ opened
    → Fresh t.id db
    → Reading t (record db { trades = t ∷ db.trades })
unfolding find_trade locked_in
inserted t db opens f =
    let self : (t.id == t.id) ≡ true = ground arith in
    let front : find_trade t.id (t ∷ db.trades) ≡ some t = rw self refl in
    (
      record {
        indexed = f.backed.indexed;
        backed = λ o c.
            f.backed.backed o c
            ∙ sym (
                rw (no_share t (escrow_of o c) opens)
                  (zero_+ℤ (locked_in (escrow_of o c) db.trades)));
        keys = λ u at_u. elim (Bool-cases (t.id == u.id)) [
          | inl same ↦
              let e : t ≡ u = cc (rw same at at_u) in
              subst (λ (v : Trade). KeysFree v.status v.id db.ledger.journals) e (rw opens f.free)
          | inr other ↦ f.backed.keys u (rw other at at_u)
        ];
        future = λ i later.
            let ne : (t.id == i) ≡ false = let o = f.older in ground arith in
            let (absent, free) = f.backed.future i later in (rw (ne, find_trade) absent, free);
      },
      front,
    )

insert_trade-Reading :
    (t : Trade) → t.status ≡ opened → Ensures (Fresh t.id) (Reading t) (insert_trade t)
unfolding insert_trade
insert_trade-Reading t opens = Ensures-run _ (λ db db' u f e.
    elim (Bool-cases (t.amount == 0 || t.buyer_id == t.seller_id || leb t.amount t.fee_amount)) [
      | inl bad ↦ cc (rw bad at e)
      | inr good ↦ rw (ap (λ p. p.1) (ok_inj (rw good at e))) (inserted t db opens f)
    ])

decrement_offer-Backed : (id amount : ℕ) → Preserves Backed (decrement_offer id amount)
unfolding decrement_offer
decrement_offer-Backed id amount = record {
  at = λ db h. elim (Option-cases (find_offer id db.offers)) [
    | inl absent ↦ rw (absent, decrement_offer) tt
    | inr (row, found) ↦ elim (Bool-cases (leb amount row.remaining)) [
      | inl enough ↦ rw (found, decrement_offer, enough) (Backed-same db _ h refl refl refl)
      | inr short ↦ rw (found, decrement_offer, short) tt
    ]
  ];
}

record_creation-Reading :
    (t : Trade) (id : ℕ) (actor : Actor)
    → Ensures (Reading t) (Reading t) (record_creation id actor)
unfolding record_creation
record_creation-Reading t id actor = record {
  at = λ db r. (Backed-same db _ r.0 refl refl refl, r.1);
}

create_trade-Backed :
    (s : TradeSettings) (offer : Offer) (taker : ℕ) (dto : OpenTradeRequest) (fees : PerSideSplit)
    (fiat : ℕ)
    → Preserves Backed (create_trade s offer taker dto fees fiat)
unfolding create_trade
create_trade-Backed s offer taker dto fees fiat = Ensures-Preserves (
    Ensures-then (record { at = (decrement_offer-Backed offer.id dto.amount).at })
      (λ u.
        Ensures-bind _ _ Fresh (λ db db' id h e. given_Fresh db db' id h e)
          (λ id.
            let t : Trade = opened_trade s offer taker dto fees fiat id in
            Ensures-then (insert_trade-Reading t refl) (λ v.
              Ensures-then (record_creation-Reading t id _)
                (λ w. Ensures-then (lock_keeps t _ _ refl) (λ x. record { at = λ db h. h }))))))

lock_offer-Backed : (id : ℕ) → Preserves Backed (lock_offer id)
unfolding lock_offer
lock_offer-Backed id = record {
  at = λ db h. elim (Option-cases (find_offer id db.offers)) [
    | inl absent ↦ rw (absent, lock_offer) tt
    | inr (o, found) ↦ rw (found, lock_offer) h
  ];
}

lift-Backed : {A : Type 0} (r : Result A) → Preserves Backed (lift r)
lift-Backed (ok a) = record { at = λ db h. h }
lift-Backed (err e) = record { at = λ db h. tt }

gets-Backed : {A : Type 0} (f : Db → A) → Preserves Backed (gets f)
gets-Backed f = record { at = λ db h. h }

pub open_trade-Backed :
    (s : TradeSettings) (taker : ℕ) (dto : OpenTradeRequest)
    → Preserves Backed (open_trade_tx s taker dto)
unfolding open_trade_tx
open_trade-Backed s taker dto =
    search (preserves_rules, lock_offer-Backed, lift-Backed, gets-Backed, create_trade-Backed) depth
      30

-- ------------------------------------------------- submitting a payment

insert_payment-Reading :
    (t : Trade) (p : TradePayment) → Ensures (Reading t) (Reading t) (insert_payment p)
unfolding insert_payment
insert_payment-Reading t p = record {
  at = λ db r. elim (Option-cases (find_payment p.trade_id db.trade_payments)) [
    | inl new ↦ rw (new, insert_payment) (Backed-same db _ r.0 refl refl refl, r.1)
    | inr (q, found) ↦ rw (found, insert_payment) tt
  ];
}

is_locked : (s : TradeStatus) → not (status_eq s escrow_locked) ≡ false → s ≡ escrow_locked
unfolding status_eq
is_locked s h = ground arith

record_payment-Backed :
    (t : Trade) (buyer : ℕ) (dto : PaymentProof)
    → t.status ≡ escrow_locked
    → Ensures (Reading t) Backed (record_payment t buyer dto)
unfolding record_payment
record_payment-Backed t buyer dto h = Ensures-then (insert_payment-Reading t _) (λ u.
    Ensures-then (quiet_move t payment_submitted _ _ _ (rw h refl) (λ db k. rw h at k))
      (λ v. record { at = λ db k. k }))

pub submit_payment-Backed :
    (id buyer : ℕ) (dto : PaymentProof) → Ensures Backed Backed (submit_payment_tx id buyer dto)
unfolding submit_payment_tx
submit_payment-Backed id buyer dto = Ensures-lock id _ (λ t.
    Ensures-guard (not (t.buyer_id == buyer)) (trade_not_found id) _ (λ own.
      Ensures-guard (not (status_eq t.status escrow_locked))
        (illegal_transition t.status payment_submitted) _
        (λ good. record_payment-Backed t buyer dto (is_locked t.status good))))
