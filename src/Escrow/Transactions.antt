-- ===== src/Escrow/Transactions.antt =====
-- Each transaction of EscrowService (backend/src/modules/escrow/escrow.service.ts) leaves the escrow
-- accounts backed.
use quata_trade.Prelude.{◌==◌, ℕ, ◌≡◌, refl, sym, true, false, not, ◌&&◌, arith}
use quata_trade.Domain.{
  TradeStatus, opened, escrow_locked, payment_submitted, completed, cancelled, expired, disputed,
  resolved_release, resolved_refund, status_eq, DisputeResolution, release_to_buyer,
  refund_to_seller,
}
use quata_trade.Errors.{trade_not_found, illegal_transition}
use quata_trade.Tx.Ensures.{Ensures, Ensures-ite, Ensures-guard, Ensures-then}
use quata_trade.Ledger.{Actor}
use quata_trade.Db.{Trade}
use quata_trade.Escrow.{
  resolved_status, is_some, not_due, release_and_complete, confirm_release_tx, cancel_unfunded,
  cancel_and_refund, cancel_trade_tx, expire_and_refund, expire_trade_tx, mark_disputed,
  apply_resolution, resolve_dispute_tx,
}
use quata_trade.Escrow.Backing.{is_funded, Backed}
use quata_trade.Escrow.Solvent.{
  Reading, Ensures-lock, Reading-pure, Reading-throw, quiet_move, funded_keys, restock_keeps,
  refund_Ready, release_Ready, Ready-transition,
}

is_status :
    (s t : TradeStatus) → not (status_eq s t) ≡ false → is_funded t ≡ true → is_funded s ≡ true
unfolding status_eq
is_status s t h k = ground arith

either_status :
    (s t u : TradeStatus)
    → (not (status_eq s t) && not (status_eq s u)) ≡ false
    → is_funded t ≡ true
    → is_funded u ≡ true
    → is_funded s ≡ true
unfolding status_eq
either_status s t u h k l = ground arith

pub confirm_release-Backed :
    (now id seller : ℕ) → Ensures Backed Backed (confirm_release_tx now id seller)
unfolding confirm_release_tx release_and_complete
confirm_release-Backed now id seller = Ensures-lock id _ (λ t.
    Ensures-guard (not (t.seller_id == seller)) (trade_not_found id) _ (λ own.
      Ensures-ite (status_eq t.status completed && is_some t.release_journal_id) _ _
        (λ done. Reading-pure t t)
        (λ live.
          Ensures-ite (not (status_eq t.status payment_submitted)) _ _
            (λ bad. Reading-throw t (illegal_transition t.status completed))
            (λ good.
              Ensures-then
                (release_Ready t completed _ (is_status t.status payment_submitted good refl)
                  (refl, λ i js. tt))
                (λ journal. Ready-transition t completed _ _ _ _)))))

cancel_and_refund-Backed :
    (t : Trade) (actor : Actor)
    → is_funded t.status ≡ true
    → Ensures (Reading t) Backed (cancel_and_refund t actor)
unfolding cancel_and_refund
cancel_and_refund-Backed t actor h = Ensures-then (restock_keeps t) (λ u.
    Ensures-then (refund_Ready t cancelled actor h (refl, λ i js. tt))
      (λ journal. Ready-transition t cancelled actor _ _ _))

cancel_unfunded-Backed :
    (t : Trade) (actor : Actor)
    → t.status ≡ opened
    → Ensures (Reading t) Backed (cancel_unfunded t actor)
unfolding cancel_unfunded
cancel_unfunded-Backed t actor h =
    Ensures-then (quiet_move t cancelled actor _ _ (rw h refl) (λ db k. tt))
      (λ u. record { at = λ db k. k })

is_opened : (s : TradeStatus) → status_eq s opened ≡ true → s ≡ opened
unfolding status_eq
is_opened s h = ground arith

pub cancel_trade-Backed : (id user : ℕ) → Ensures Backed Backed (cancel_trade_tx id user)
unfolding cancel_trade_tx
cancel_trade-Backed id user = Ensures-lock id _ (λ t.
    Ensures-guard (not (t.buyer_id == user)) (trade_not_found id) _ (λ own.
      Ensures-ite (status_eq t.status cancelled) _ _ (λ done. Reading-pure t t)
        (λ live.
          Ensures-ite (status_eq t.status opened) _ _
            (λ new. cancel_unfunded-Backed t _ (is_opened t.status new))
            (λ old.
              Ensures-ite
                (not (status_eq t.status escrow_locked)
                  && not (status_eq t.status payment_submitted))
                _ _ (λ bad. Reading-throw t (illegal_transition t.status cancelled))
                (λ good.
                  cancel_and_refund-Backed t _
                    (either_status t.status escrow_locked payment_submitted good refl refl))))))

pub expire_trade-Backed : (now id : ℕ) → Ensures Backed Backed (expire_trade_tx now id)
unfolding expire_trade_tx expire_and_refund
expire_trade-Backed now id = Ensures-lock id _ (λ t.
    Ensures-ite (not (status_eq t.status escrow_locked)) _ _ (λ bad. Reading-pure t false)
      (λ good.
        Ensures-ite (not_due t.payment_deadline now) _ _ (λ early. Reading-pure t false)
          (λ due. Ensures-then (restock_keeps t) (λ u.
            Ensures-then
              (refund_Ready t expired _ (is_status t.status escrow_locked good refl)
                (refl, λ i js. tt))
              (λ journal. Ready-transition t expired _ _ _ _)))))

pub mark_disputed-Backed :
    (t : Trade) (user : ℕ) → Ensures (Reading t) Backed (mark_disputed t user)
unfolding mark_disputed
mark_disputed-Backed t user =
    Ensures-ite
      (not (status_eq t.status escrow_locked) && not (status_eq t.status payment_submitted)) _ _
      (λ bad. Reading-throw t (illegal_transition t.status disputed))
      (λ good.
        let funded : is_funded t.status ≡ true =
          either_status t.status escrow_locked payment_submitted good refl refl in
        quiet_move t disputed _ _ _ (sym funded)
          (λ db k. funded_keys t.status t.id db.ledger.journals funded k))

apply_resolution-Backed :
    (now : ℕ) (t : Trade) (actor : Actor) (r : DisputeResolution)
    → is_funded t.status ≡ true
    → Ensures (Reading t) Backed (apply_resolution now t actor r)
unfolding apply_resolution
apply_resolution-Backed now t actor release_to_buyer h =
    Ensures-then (release_Ready t resolved_release actor h (refl, λ i js. tt))
      (λ journal. Ready-transition t resolved_release actor _ _ _)
apply_resolution-Backed now t actor refund_to_seller h = Ensures-then (restock_keeps t) (λ u.
    Ensures-then (refund_Ready t resolved_refund actor h (refl, λ i js. tt))
      (λ journal. Ready-transition t resolved_refund actor _ _ _))

pub resolve_dispute-Backed :
    (now id admin : ℕ) (r : DisputeResolution)
    → Ensures Backed Backed (resolve_dispute_tx now id admin r)
unfolding resolve_dispute_tx
resolve_dispute-Backed now id admin r = Ensures-lock id _ (λ t.
    Ensures-ite (status_eq t.status (resolved_status r)) _ _ (λ done. Reading-pure t t)
      (λ live.
        Ensures-ite (not (status_eq t.status disputed)) _ _
          (λ bad. Reading-throw t (illegal_transition t.status (resolved_status r)))
          (λ good. apply_resolution-Backed now t _ r (is_status t.status disputed good refl))))
