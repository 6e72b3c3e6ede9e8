-- ===== src/Escrow/Expiry.antt =====
-- Nothing that is locked stays locked: `expireTrade` gives an overdue trade's coins back
-- (backend/src/modules/escrow/escrow.service.ts).
use quata_trade.Prelude.{
  ℕ, ◌+◌, ◌<◌, ◌≤◌, ◌≡◌, refl, sym, ap, ◌∙◌, ℤ, pos, ◌+ℤ◌, ◌≤ℤ◌, +ℤ_zero, int_laws, Bool, true,
  false, not, ◌&&◌, if◌then◌else◌, Option, none, some, Option-cases, Bool-cases, inl, inr, String,
  List, [], ◌∷◌, ◌==◌, arith,
}
use quata_trade.Domain.{TradeStatus, escrow_locked, expired, status_eq}
use quata_trade.Errors.{PgCode}
use quata_trade.Tx.Retry.{Aborted, with_money_transaction-eq-execute}
use quata_trade.Tx.{ok, execute, Tx, pure, ◌>>◌}
use quata_trade.Tx.Guards.{bind_runs}
use quata_trade.Ledger.{Actor, Ledger, find_journal, system}
use quata_trade.Ledger.Holdings.{Ref, ref_eq, ref_eq_self, moved, holding}
use quata_trade.Ledger.Invariant.{IsConsistent}
use quata_trade.Db.{Db, Trade}
use quata_trade.Escrow.{
  Extra, no_extra, not_due, escrow_locked_amount, trade_key, find_trade, find_offer,
  write_transition, transition, passes_trigger, is_legal, restock_row, restock_offer, lock_trade,
  post_refund, expire_and_refund, expire_trade_tx, expire_trade,
}
use quata_trade.Escrow.Progress.{find_trade-id, find_trade-set_self}
use quata_trade.Escrow.Effects.{escrowed, available, refund_moves, post_refund_ok}
use quata_trade.Escrow.Backing.{is_funded, share, locked_in, Backed}
use quata_trade.Escrow.Solvent.{restock_offer_ok, funded_keys}
use quata_trade.Escrow.Refunds.{post_refund_succeeds, kinds_apart}

-- ------------------------------------------------- the account holds the trade's share

share_non_negative : (s : Ref) (t : Trade) → pos 0 ≤ℤ share s t
unfolding share
share_non_negative s t = elim (Bool-cases (ref_eq (escrowed t) s && is_funded t.status)) [
  | inl here ↦ rw here (omega arith)
  | inr gone ↦ rw gone (omega arith)
]

sum_le : (a b n : ℤ) → pos 0 ≤ℤ a → n ≤ℤ b → n ≤ℤ a +ℤ b
sum_le a b n h k = omega (int_laws, h, k)

sum_ge : (a b n : ℤ) → n ≤ℤ a → pos 0 ≤ℤ b → n ≤ℤ a +ℤ b
sum_ge a b n h k = omega (int_laws, h, k)

locked_in_non_negative : (s : Ref) (ts : List Trade) → pos 0 ≤ℤ locked_in s ts
unfolding locked_in
locked_in_non_negative s [] = omega arith
locked_in_non_negative s (t ∷ ts) =
    sum_le (share s t) (locked_in s ts) (pos 0) (share_non_negative s t)
      (locked_in_non_negative s ts)

share_le_locked_in :
    (s : Ref) (id : ℕ) (ts : List Trade) {t : Trade}
    → find_trade id ts ≡ some t
    → share s t ≤ℤ locked_in s ts
unfolding locked_in find_trade
share_le_locked_in s id [] h = absurd (cc)
share_le_locked_in s id (u ∷ ts) {t} h = elim (Bool-cases (u.id == id)) [
  | inl same ↦
      let here : t ≡ u = cc (rw same at h) in
      sum_ge (share s u) (locked_in s ts) (share s t) (simp here (omega arith))
        (locked_in_non_negative s ts)
  | inr other ↦
      sum_le (share s u) (locked_in s ts) (share s t) (share_non_negative s u)
        (share_le_locked_in s id ts (rw other at h))
]

full_share :
    (t : Trade) → is_funded t.status ≡ true → share (escrowed t) t ≡ pos (escrow_locked_amount t)
unfolding share
full_share t h = rw (ref_eq_self (escrowed t), h) refl

-- ------------------------------------------------- each step goes through

restock_offer_runs :
    (id amount : ℕ) (db : Db) → (db' : Db) × (restock_offer id amount db ≡ ok (tt, db'))
unfolding restock_offer restock_row
restock_offer_runs id amount db = elim (Option-cases (find_offer id db.offers)) [
  | inl absent ↦ (db, rw (absent, restock_offer) refl)
  | inr (o, found) ↦ (restock_row amount o o.status db, rw (found, restock_offer) refl)
]

status_eq_self : (s : TradeStatus) → status_eq s s ≡ true
unfolding status_eq
status_eq_self s = ground arith

transition_runs :
    (t : Trade) (to : TradeStatus) (actor : Actor) (m : Option String) (x : Extra) (db : Db)
    → find_trade t.id db.trades ≡ some t
    → passes_trigger t.status to ≡ true
    → transition t to actor m x db ≡ ok (tt, write_transition t t to actor m x db)
unfolding transition
transition_runs t to actor m x db found passes =
    rw (found, status_eq_self t.status, passes, transition) refl

-- What is left of the locked coins after a refund: they are the seller's.
refunded : (t : Trade) → moved (refund_moves t) (available t) ≡ pos (escrow_locked_amount t)
refunded t =
    rw (kinds_apart t, ref_eq_self (available t), +ℤ_zero (pos (escrow_locked_amount t))) refl

-- ------------------------------------------------- a trade past its deadline

-- A funded trade whose deadline has passed.
pub record IsOverdue (now id : ℕ) (t : Trade) (db : Db) : Type 0 where
  pub found : find_trade id db.trades ≡ some t
  pub funded : t.status ≡ escrow_locked
  pub due : not_due t.payment_deadline now ≡ false
  pub positive : 0 < t.amount

-- The seller has the coins back, and the trade has expired.
pub record Returned (id : ℕ) (t : Trade) (db db' : Db) : Type 0 where
  pub ended : find_trade id db'.trades ≡ some (record t { status = expired })
  pub credited :
      holding db'.ledger (available t)
      ≡ pos (escrow_locked_amount t) +ℤ holding db.ledger (available t)

is_locked_funded : (s : TradeStatus) → s ≡ escrow_locked → is_funded s ≡ true
is_locked_funded s h = rw h refl

expires_from : (s : TradeStatus) → s ≡ escrow_locked → passes_trigger s expired ≡ true
unfolding passes_trigger status_eq is_legal
expires_from s h = rw h refl

expire_runs :
    (t : Trade) (db : Db) {d1 d2 d3 : Db} {id : ℕ}
    → restock_offer t.offer_id t.amount db ≡ ok (tt, d1)
    → post_refund t system d1 ≡ ok (id, d2)
    → transition t expired system none no_extra d2 ≡ ok (tt, d3)
    → expire_and_refund t db ≡ ok (true, d3)
unfolding expire_and_refund
expire_runs t db {d1} {d2} restocks refunds moves =
    bind_runs (restock_offer t.offer_id t.amount)
      (λ u. post_refund t system >> (transition t expired system none no_extra >> pure true)) db
      restocks
    ∙ bind_runs (post_refund t system)
        (λ id. transition t expired system none no_extra >> pure true) d1 refunds
    ∙ bind_runs (transition t expired system none no_extra) (λ u. pure true) d2 moves

lock_trade_runs :
    (id : ℕ) (t : Trade) (db : Db)
    → find_trade id db.trades ≡ some t
    → lock_trade id db ≡ ok (t, db)
unfolding lock_trade
lock_trade_runs id t db found = rw (found, lock_trade) refl

passes_both :
    {A : Type 0} (b c : Bool) (x y z : A)
    → b ≡ true
    → c ≡ false
    → (if not b then x else if c then y else z) ≡ z
passes_both b c x y z h k = rw (h, k) refl

expire_tx_runs :
    (now id : ℕ) (t : Trade) (db : Db)
    → find_trade id db.trades ≡ some t
    → status_eq t.status escrow_locked ≡ true
    → not_due t.payment_deadline now ≡ false
    → expire_trade_tx now id db ≡ expire_and_refund t db
unfolding expire_trade_tx
expire_tx_runs now id t db found locked due =
    bind_runs (lock_trade id)
      (λ trade.
        if not (status_eq trade.status escrow_locked)
        then pure false
        else if not_due trade.payment_deadline now
        then pure false
        else expire_and_refund trade)
      db (lock_trade_runs id t db found)
    ∙ ap (λ (m : Tx Db Bool). m db)
        (passes_both (status_eq t.status escrow_locked) (not_due t.payment_deadline now) _ _ _
          locked due)

is_status_locked : (s : TradeStatus) → s ≡ escrow_locked → status_eq s escrow_locked ≡ true
unfolding status_eq
is_status_locked s h = rw h refl

refunds_and_expires :
    (t : Trade) (db : Db)
    → Backed db
    → IsConsistent db.ledger
    → find_trade t.id db.trades ≡ some t
    → t.status ≡ escrow_locked
    → 0 < t.amount
    → (db' : Db) × (expire_and_refund t db ≡ ok (true, db')) × Returned t.id t db db'
unfolding write_transition
refunds_and_expires t db h c at_t locked more =
    let funded : is_funded t.status ≡ true = is_locked_funded t.status locked in
    let (d1, restocks) = restock_offer_runs t.offer_id t.amount db in
    let b = restock_offer_ok t.offer_id t.amount db d1 restocks in
    let funds : pos (escrow_locked_amount t) ≤ℤ holding db.ledger (escrowed t) =
      rw (h.backed (some t.seller_id) t.asset)
        (rw (full_share t funded) at (share_le_locked_in (escrowed t) t.id db.trades at_t)) in
    let (id, l, refunds) =
      post_refund_succeeds t system d1 (rw b.ledger h.indexed) (rw b.ledger c) (omega arith)
        (rw b.ledger funds) in
    let free = funded_keys t.status t.id db.ledger.journals funded (h.keys t at_t) in
    let (l', posted, same) =
      post_refund_ok t system d1 (record d1 { ledger = l }) (rw b.ledger h.indexed)
        (ap (λ (k : Ledger). find_journal (trade_key t.id "refund") k.journals) b.ledger ∙ free.1)
        refunds in
    let d2 : Db = record d1 { ledger = l } in
    let there : find_trade t.id d2.trades ≡ some t = ap (find_trade t.id) b.trades ∙ at_t in
    let moves =
      transition_runs t expired system none no_extra d2 there (expires_from t.status locked) in
    (
      write_transition t t expired system none no_extra d2,
      expire_runs t db restocks refunds moves,
      record {
        ended = find_trade-set_self t.id (record t { status = expired }) d2.trades refl there;
        credited =
            ap (λ (d : Db). holding d.ledger (available t)) same
            ∙ posted.moves (available t)
            ∙ ap (λ v. v +ℤ holding d1.ledger (available t)) (refunded t)
            ∙ ap (λ (k : Ledger). pos (escrow_locked_amount t) +ℤ holding k (available t)) b.ledger;
      },
    )

overdue_runs :
    (now id : ℕ) (t : Trade) (db : Db)
    → Backed db
    → IsConsistent db.ledger
    → IsOverdue now id t db
    → (db' : Db) × (expire_trade_tx now id db ≡ ok (true, db')) × Returned id t db db'
overdue_runs now id t db h c o =
    let own : t.id ≡ id = find_trade-id id db.trades o.found in
    let (db', runs, done) =
      refunds_and_expires t db h c (ap (λ i. find_trade i db.trades) own ∙ o.found) o.funded
        o.positive in
    (
      db',
      expire_tx_runs now id t db o.found (is_status_locked t.status o.funded) o.due ∙ runs,
      record {
        ended = ap (λ i. find_trade i db'.trades) (sym own) ∙ done.ended;
        credited = done.credited;
      },
    )

-- On a consistent ledger with backed escrow accounts, expiring a funded trade of a positive amount
-- past its deadline succeeds, if the database aborts at most two attempts: the trade ends as
-- expired, and its amount and seller fee are back in the seller's balance.
pub overdue_trade_expires :
    (aborts : ℕ → Option PgCode) (n now id : ℕ) (t : Trade) (db : Db)
    → n ≤ 2
    → Aborted aborts 1 n
    → aborts (1 + n) ≡ none
    → Backed db
    → IsConsistent db.ledger
    → IsOverdue now id t db
    → (db' : Db) × (expire_trade aborts now id db ≡ (ok true, db')) × Returned id t db db'
unfolding expire_trade execute
overdue_trade_expires aborts n now id t db few aborted goes h c o =
    let (db', runs, done) = overdue_runs now id t db h c o in
    (
      db',
      with_money_transaction-eq-execute aborts (expire_trade_tx now id) n db few aborted goes
            (rw runs tt)
          ∙ rw (runs, execute) refl,
      done,
    )
