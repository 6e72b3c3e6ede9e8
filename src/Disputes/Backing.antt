-- ===== src/Disputes/Backing.antt =====
-- Opening and resolving a dispute (backend/src/modules/disputes/disputes.service.ts,
-- disputes-admin.service.ts) leave the escrow accounts backed.
use quata_trade.Prelude.{
  ℕ, ◌+◌, ◌≡◌, refl, ap, pos, neg_ℤ, Bool, Bool-cases, true, false, not, ◌&&◌, Option, none, some,
  Option-cases, inl, inr, String, ltb, ◌==◌, if◌then◌else◌, arith,
}
use quata_trade.Domain.{
  escrow_locked, payment_submitted, disputed, status_eq, DisputeResolution, user_available,
  platform_treasury, resolved,
}
use quata_trade.Errors.{PgCode, trade_not_found, illegal_transition, no_result}
use quata_trade.Tx.{ok, err, pure, or_throw, gets, Result}
use quata_trade.Tx.Preserves.{
  Preserves, Preserves-bind, with_money_transaction-keeps, execute-keeps,
}
use quata_trade.Tx.Guards.{ok_inj}
use quata_trade.Tx.Ensures.{Ensures, Ensures-run, Ensures-guard, Ensures-then, Ensures-Preserves}
use quata_trade.Ledger.{key_eq}
use quata_trade.Postings.{pair_posting-Aside}
use quata_trade.Db.{Db, Trade, Dispute, OutboxEvent, AuditEntry}
use quata_trade.Tables.{enqueue_outbox, audit}
use quata_trade.Escrow.{trade_key, resolve_dispute}
use quata_trade.Escrow.Backing.{Backed, escrow_of}
use quata_trade.Escrow.Aside.{Backed-same, Backed-ledger}
use quata_trade.Escrow.Settling.{elsewhere}
use quata_trade.Escrow.Solvent.{Reading, Ensures-lock}
use quata_trade.Escrow.Transactions.{mark_disputed-Backed, resolve_dispute-Backed}
use quata_trade.Disputes.{
  has_dispute, find_dispute, insert_dispute, charge_dispute_fee, write_dispute, open_dispute_tx,
  open_dispute_on, dispute_status_eq, same_resolution, record_resolution, after_money, resolve,
}

insert_dispute-Reading :
    (t : Trade) (id trade_id user : ℕ) (reason : String)
    → Ensures (Reading t) (Reading t) (insert_dispute id trade_id user reason)
unfolding insert_dispute
insert_dispute-Reading t id trade_id user reason = record {
  at = λ db r. elim (Bool-cases (has_dispute trade_id db.disputes)) [
    | inl old ↦ rw (old, insert_dispute) tt
    | inr new ↦ rw (new, insert_dispute) (Backed-same db _ r.0 refl refl refl, r.1)
  ];
}

charge_dispute_fee-Reading :
    (t u : Trade) (fee id user : ℕ)
    → Ensures (Reading t) (Reading t) (charge_dispute_fee fee id u user)
unfolding charge_dispute_fee key_eq
charge_dispute_fee-Reading t u fee id user = Ensures-run _ (λ db db' x r h.
    let (posted, a, b, l, aside, rest) =
      pair_posting-Aside (some user) none user_available platform_treasury u.asset (neg_ℤ (pos fee))
        (pos fee) _ _ db db' r.0.indexed (λ a b. refl) h in
    let same : db' ≡ record db { ledger = l } = ap (λ p. p.1) (ok_inj rest) in
    rw same (
      Backed-ledger db l r.0 aside.indexed
          (λ o c. aside.same (escrow_of o c) (
            rw
              (
                elsewhere (some user) o user_available u.asset c refl,
                elsewhere none o platform_treasury u.asset c refl,
              )
              refl))
          (λ i action. aside.journals (trade_key i action) refl),
      r.1,
    ))

enqueue-Backed : (e : OutboxEvent) → Preserves Backed (enqueue_outbox e)
unfolding enqueue_outbox
enqueue-Backed e = record { at = λ db h. Backed-same db _ h refl refl refl }

audit-Backed : (e : AuditEntry) → Preserves Backed (audit e)
unfolding audit
audit-Backed e = record { at = λ db h. Backed-same db _ h refl refl refl }

fee-Reading :
    (t : Trade) (fee id user : ℕ) (charged : Bool)
    → Ensures
        (Reading t)
        (Reading t)
        (if charged then charge_dispute_fee fee id t user else pure tt)
fee-Reading t fee id user true = charge_dispute_fee-Reading t t fee id user
fee-Reading t fee id user false = record { at = λ db r. r }

write_dispute-Backed :
    (fee id : ℕ) (t : Trade) (user : ℕ) (reason : String)
    → Ensures (Reading t) Backed (write_dispute fee id t user reason)
unfolding write_dispute
write_dispute-Backed fee id t user reason =
    Ensures-then (insert_dispute-Reading t id t.id user reason) (λ u.
      Ensures-then (fee-Reading t fee id user (ltb 0 fee)) (λ v.
        Ensures-then (mark_disputed-Backed t user) (λ w.
          Ensures-then (record { at = (enqueue-Backed _).at })
            (λ x. record { at = (audit-Backed _).at }))))

read_back : (row : Option Dispute) → Preserves Backed (or_throw row no_result)
read_back none = record { at = λ db h. tt }
read_back (some d) = record { at = λ db h. h }

open_dispute-Ensures :
    (fee id trade_id user : ℕ) (reason : String)
    → Ensures Backed Backed (open_dispute_tx fee id trade_id user reason)
unfolding open_dispute_tx
open_dispute-Ensures fee id trade_id user reason = Ensures-lock trade_id _ (λ t.
    Ensures-guard (not (t.buyer_id == user) && not (t.seller_id == user)) (trade_not_found trade_id)
      _
      (λ party.
        Ensures-guard
          (not (status_eq t.status escrow_locked) && not (status_eq t.status payment_submitted))
          (illegal_transition t.status disputed) _
          (λ live. Ensures-then (write_dispute-Backed fee id t user reason) (λ u.
            Ensures-then {R = Backed} {m = gets (λ db. find_dispute id db.disputes)}
              (record { at = λ db h. h }) (λ row. record { at = (read_back row).at })))))

next_id-Backed : (db : Db) → Backed db → Backed (record db { next_id = db.next_id + 1 })
next_id-Backed db h = record {
  indexed = h.indexed;
  backed = h.backed;
  keys = h.keys;
  future = λ id later. h.future id (omega arith);
}

pub open_dispute-Backed :
    (aborts : ℕ → Option PgCode) (fee trade_id user : ℕ) (reason : String) (db : Db)
    → Backed db
    → Backed (open_dispute_on aborts fee trade_id user reason db).1
unfolding open_dispute_on
open_dispute-Backed aborts fee trade_id user reason db h =
    with_money_transaction-keeps aborts _ (record db { next_id = db.next_id + 1 })
      (Ensures-Preserves (open_dispute-Ensures fee db.next_id trade_id user reason))
      (next_id-Backed db h)

-- ------------------------------------------------- resolving

record_resolution-Backed :
    (now id admin : ℕ) (r : DisputeResolution) (notes : String)
    → Preserves Backed (record_resolution now id admin r notes)
unfolding record_resolution enqueue_outbox audit
record_resolution-Backed now id admin r notes = record {
  at = λ db h. elim (Option-cases (find_dispute id db.disputes)) [
    | inl absent ↦ rw (absent, record_resolution) h
    | inr (d, found) ↦ elim (Bool-cases (dispute_status_eq d.status resolved)) [
      | inl done ↦ rw (found, record_resolution, done) h
      | inr live ↦ rw (found, record_resolution, live) (Backed-same db _ h refl refl refl)
    ]
  ];
}

after_money-Backed :
    (now : ℕ) (d : Dispute) (admin : ℕ) (r : DisputeResolution) (notes : String)
    (p : Result Trade × Db)
    → Backed p.1
    → Backed (after_money now d admin r notes p).1
unfolding after_money
after_money-Backed now d admin r notes (err e, db) h = h
after_money-Backed now d admin r notes (ok t, db) h =
    execute-keeps _ db
      (Preserves-bind _ _ (record_resolution-Backed now d.id admin r notes)
        (λ applied. record { at = λ s k. k }))
      h

pub resolve-Backed :
    (aborts : ℕ → Option PgCode) (now id admin : ℕ) (r : DisputeResolution) (notes : String)
    (db : Db)
    → Backed db
    → Backed (resolve aborts now id admin r notes db).1
unfolding resolve resolve_dispute
resolve-Backed aborts now id admin r notes db h =
    elim (Option-cases (find_dispute id db.disputes)) [
      | inl absent ↦ rw (absent, resolve) h
      | inr (d, found) ↦ elim (Bool-cases (dispute_status_eq d.status resolved)) [
        | inl done ↦ elim (Bool-cases (same_resolution d.resolution r)) [
          | inl same ↦ rw (found, resolve, done, same) h
          | inr other ↦ rw (found, resolve, done, other) h
        ]
        | inr live ↦
            rw (found, resolve, live)
              (after_money-Backed now d admin r notes _ (
                with_money_transaction-keeps aborts _ db
                  (Ensures-Preserves (resolve_dispute-Backed now d.trade_id admin r)) h))
      ]
    ]
