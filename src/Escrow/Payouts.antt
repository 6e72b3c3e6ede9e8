-- ===== src/Escrow/Payouts.antt =====
-- What a release pays (`confirmRelease` in backend/src/modules/escrow/escrow.service.ts).
use quata_trade.Prelude.{
  ℕ, ◌≡◌, refl, sym, ap, ◌∙◌, ◌+ℤ◌, true, false, not, Option, none, some, ◌==◌, arith,
}
use quata_trade.Domain.{payment_submitted, completed, status_eq}
use quata_trade.Errors.{PgCode, trade_not_found}
use quata_trade.Tx.{ok, throw_if}
use quata_trade.Tx.Guards.{bind_ok, bind_runs, ok_inj, throw_if_ok}
use quata_trade.Tx.Retry.{with_money_transaction-IsAtomic}
use quata_trade.Ledger.{seller_actor, find_journal}
use quata_trade.Ledger.Holdings.{Ref, IsIndexed, moved, holding}
use quata_trade.Db.{Db, Trade}
use quata_trade.Escrow.{
  Extra, no_extra, moved_row, transition, find_trade, trade_key, lock_trade, post_release,
  write_transition, release_and_complete, confirm_release_tx, confirm_release,
}
use quata_trade.Escrow.Progress.{Transitioned, transition_ok, find_trade-set_self, find_trade-id}
use quata_trade.Escrow.Effects.{release_moves, post_release_ok}

-- The row of `t` is completed, and these movements were made.
pub record PaidOut (t : Trade) (db db' : Db) : Type 0 where
  pub row : Trade
  pub found : find_trade t.id db'.trades ≡ some row
  pub status : row.status ≡ completed
  pub moves : (s : Ref) → holding db'.ledger s ≡ moved (release_moves t) s +ℤ holding db.ledger s

locked :
    (id : ℕ) (db : Db) {t : Trade}
    → find_trade id db.trades ≡ some t
    → lock_trade id db ≡ ok (t, db)
unfolding lock_trade
locked id db found = rw (found, lock_trade) refl

completed_lem :
    (now seller : ℕ) (t : Trade) (db db' : Db) {u : Trade}
    → IsIndexed db.ledger
    → find_journal (trade_key t.id "release") db.ledger.journals ≡ none
    → release_and_complete now t seller db ≡ ok (u, db')
    → PaidOut t db db'
unfolding release_and_complete write_transition
completed_lem now seller t db db' x unused h =
    let (id, db1, e1, h1) = bind_ok (post_release t (seller_actor seller)) _ db db' h in
    let (l, p, at_l) = post_release_ok t (seller_actor seller) db db1 x unused e1 in
    let extra : Extra = record no_extra { completed_at = some now; release_journal_id = some id } in
    let (v, db2, e2, h2) =
      bind_ok (transition t completed (seller_actor seller) none extra) _ db1 db' h1 in
    let m : Transitioned t completed (seller_actor seller) none extra db1 db2 =
      transition_ok t completed (seller_actor seller) none extra db1 e2 in
    let same : db' ≡ write_transition m.row t completed (seller_actor seller) none extra db1 =
      ap (λ q. q.1) (ok_inj h2) ∙ m.written in
    record {
      row = moved_row m.row completed extra;
      found =
          ap (λ d. find_trade t.id d.trades) same
          ∙ find_trade-set_self t.id (moved_row m.row completed extra) db1.trades
              (find_trade-id t.id db1.trades m.found) m.found;
      status = refl;
      moves =
          λ s. ap (λ d. holding d.ledger s) (same) ∙ ap (λ d. holding d.ledger s) at_l ∙ p.moves s;
    }

-- A release under a fresh key that goes through, of a trade whose payment was submitted, is by its
-- seller, completes its row, and takes amount and seller fee out of escrow: the buyer is paid the
-- amount without the buyer's fee, the treasury both fees, and what everyone else holds stays: where
-- account ids are unique and older than the next id.
pub released_trade_pays :
    (aborts : ℕ → Option PgCode) (now seller : ℕ) (db db' : Db) (t u : Trade)
    → IsIndexed db.ledger
    → find_trade t.id db.trades ≡ some t
    → t.status ≡ payment_submitted
    → find_journal (trade_key t.id "release") db.ledger.journals ≡ none
    → confirm_release aborts now t.id seller db ≡ (ok u, db')
    → (t.seller_id ≡ seller) × PaidOut t db db'
unfolding confirm_release confirm_release_tx status_eq
released_trade_pays aborts now seller db db' t u x found paid unused h =
    let run : confirm_release_tx now t.id seller db ≡ ok (u, db') =
      rw h at (with_money_transaction-IsAtomic aborts (confirm_release_tx now t.id seller) db) in
    let rest = sym (bind_runs (lock_trade t.id) _ db (locked t.id db found)) ∙ run in
    let (unit, db1, guard, go) =
      bind_ok (throw_if (not (t.seller_id == seller)) (trade_not_found t.id)) _ db db' rest in
    let (owner, same) =
      throw_if_ok (not (t.seller_id == seller)) (trade_not_found t.id) db db1 guard in
    let unfinished : status_eq t.status completed ≡ false = ap (λ s. status_eq s completed) paid in
    let submitted : status_eq t.status payment_submitted ≡ true =
      ap (λ s. status_eq s payment_submitted) paid in
    (
      ground arith,
      completed_lem now seller t db db' x unused (rw (same, unfinished, submitted) at go),
    )
