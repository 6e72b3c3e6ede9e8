-- ===== src/Escrow/History.antt =====
-- Any sequence of calls of EscrowService (backend/src/modules/escrow/escrow.service.ts): what it does
-- to a trade's row, and to the ledger.
use quata_trade.Prelude.{
  ℕ, ◌≡◌, refl, Bool, true, false, Option, some, List, [], ◌∷◌, inl, inr, String, arith,
}
use quata_trade.Domain.{
  TradeStatus, opened, escrow_locked, payment_submitted, completed, cancelled, expired, disputed,
  resolved_release, resolved_refund, DisputeResolution,
}
use quata_trade.Errors.{PgCode}
use quata_trade.Tx.{Result, Tx, ok, Result-cases, with_money_transaction, ◌>>=◌}
use quata_trade.Tx.Preserves.{Preserves, Preserves-bind, with_money_transaction-keeps}
use quata_trade.Ledger.{Actor, Ledger, get_or_create_account, post_journal}
use quata_trade.Ledger.Invariant.{IsConsistent}
use quata_trade.Ledger.Consistency.{Keeps, post_journal-Keeps, get_or_create_account-Keeps}
use quata_trade.Db.{Db, Trade, on_ledger}
use quata_trade.Escrow.{
  find_trade, is_legal, transition, write_transition, Extra, lock_trade, lock_escrow,
  confirm_release, cancel_trade, expire_trade, mark_disputed, resolve_dispute,
}
use quata_trade.Escrow.Progress.{
  Progress, here, next, SameTerms, Follows, transition-Follows, transition_ok, Transitioned,
}
use quata_trade.Escrow.Keeps.{
  Survives, lock_trade-Preserves, lock_escrow-Preserves, confirm_release-Preserves,
  cancel_trade-Preserves, expire_trade-Preserves, mark_disputed-Preserves,
  resolve_dispute-Preserves,
}

-- ------------------------------------------------- what the writes of the escrow keep

pub on_ledger-Preserves :
    {A : Type 0} {P : Db → Type 0} (m : Tx Ledger A)
    → ((db : Db) (a : A) (l : Ledger)
        → m db.ledger ≡ ok (a, l)
        → P db
        → P (record db { ledger = l }))
    → Preserves P (on_ledger m)
unfolding on_ledger
on_ledger-Preserves m k = record {
  at = λ db h. elim (Result-cases (m db.ledger)) [
    | inr (e, bad) ↦ rw (bad, on_ledger) tt
    | inl ((a, l), good) ↦ rw (good, on_ledger) (k db a l good h)
  ];
}

Follows-Survives : (t : Trade) → Survives (Follows t)
Follows-Survives t = record {
  account = λ o k c. on_ledger-Preserves (get_or_create_account o k c) (λ db a l e h. h);
  posting = λ input. on_ledger-Preserves (post_journal input) (λ db a l e h. h);
  move = transition-Follows t;
  restocking = λ amount o db h. h;
}

abbrev pub LedgerIsConsistent : Db → Type 0
LedgerIsConsistent db = IsConsistent db.ledger

committed :
    {A : Type 0} (l : Ledger) (r : Result (A × Ledger)) {a : A} {l' : Ledger}
    → Keeps l r
    → r ≡ ok (a, l')
    → IsConsistent l
    → IsConsistent l'
committed l r k e h = (rw e at k) h

LedgerIsConsistent-move :
    (t : Trade) (to : TradeStatus) (actor : Actor) (m : Option String) (x : Extra)
    → Preserves LedgerIsConsistent (transition t to actor m x)
unfolding write_transition
LedgerIsConsistent-move t to actor m x = record {
  at = λ db h. elim (Result-cases (transition t to actor m x db)) [
    | inr (e, bad) ↦ rw bad tt
    | inl ((u, db'), good) ↦ rw good (go db db' h (transition_ok t to actor m x db good))
  ];
}
  where
    go :
        (db db' : Db)
        → IsConsistent db.ledger
        → Transitioned t to actor m x db db'
        → IsConsistent db'.ledger
    go db db' h w = rw w.written h

pub LedgerIsConsistent-Survives : Survives LedgerIsConsistent
LedgerIsConsistent-Survives = record {
  account = λ o k c.
      on_ledger-Preserves (get_or_create_account o k c)
        (λ db a l e h. committed db.ledger _ (get_or_create_account-Keeps o k c db.ledger) e h);
  posting = λ input.
      on_ledger-Preserves (post_journal input)
        (λ db a l e h. committed db.ledger _ (post_journal-Keeps input db.ledger) e h);
  move = LedgerIsConsistent-move;
  restocking = λ amount o db h. h;
}

-- ------------------------------------------------- any sequence of calls

-- The calls, each in a money transaction of its own; `fund` and `dispute` lock the trade first, as
-- the services do that call `lockEscrow` and `markDisputed`.
pub data EscrowCall : Type 0 where
  fund : (trade_id : ℕ) (actor : Actor) (deadline : ℕ) → EscrowCall
  confirm : (now trade_id seller_id : ℕ) → EscrowCall
  cancel : (trade_id user_id : ℕ) → EscrowCall
  expire : (now trade_id : ℕ) → EscrowCall
  dispute : (trade_id user_id : ℕ) → EscrowCall
  resolve : (now trade_id admin_id : ℕ) → DisputeResolution → EscrowCall

unfoldable pub run_escrow : (ℕ → Option PgCode) → EscrowCall → Db → Db
unfolding confirm_release cancel_trade expire_trade resolve_dispute
run_escrow aborts (fund id actor deadline) db =
    (with_money_transaction aborts (lock_trade id >>= λ t. lock_escrow t actor deadline) db).1
run_escrow aborts (confirm now id seller) db = (confirm_release aborts now id seller db).1
run_escrow aborts (cancel id user) db = (cancel_trade aborts id user db).1
run_escrow aborts (expire now id) db = (expire_trade aborts now id db).1
run_escrow aborts (dispute id user) db =
    (with_money_transaction aborts (lock_trade id >>= λ t. mark_disputed t user) db).1
run_escrow aborts (resolve now id admin r) db = (resolve_dispute aborts now id admin r db).1

unfoldable pub run_escrows : List ((ℕ → Option PgCode) × EscrowCall) → Db → Db
run_escrows [] db = db
run_escrows ((aborts, call) ∷ calls) db = run_escrows calls (run_escrow aborts call db)

module _ {P : Db → Type 0} (s : Survives P) where
  run_escrow-keeps :
      (aborts : ℕ → Option PgCode) (call : EscrowCall) (db : Db)
      → P db
      → P (run_escrow aborts call db)
  unfolding run_escrow confirm_release cancel_trade expire_trade resolve_dispute
  run_escrow-keeps aborts (fund id actor deadline) db h =
      with_money_transaction-keeps aborts _ db
        (Preserves-bind _ _ (lock_trade-Preserves s id)
          (λ t. lock_escrow-Preserves s t actor deadline))
        h
  run_escrow-keeps aborts (confirm now id seller) db h =
      with_money_transaction-keeps aborts _ db (confirm_release-Preserves s now id seller) h
  run_escrow-keeps aborts (cancel id user) db h =
      with_money_transaction-keeps aborts _ db (cancel_trade-Preserves s id user) h
  run_escrow-keeps aborts (expire now id) db h =
      with_money_transaction-keeps aborts _ db (expire_trade-Preserves s now id) h
  run_escrow-keeps aborts (dispute id user) db h =
      with_money_transaction-keeps aborts _ db
        (Preserves-bind _ _ (lock_trade-Preserves s id) (λ t. mark_disputed-Preserves s t user)) h
  run_escrow-keeps aborts (resolve now id admin r) db h =
      with_money_transaction-keeps aborts _ db (resolve_dispute-Preserves s now id admin r) h

  run_escrows-keeps :
      (calls : List ((ℕ → Option PgCode) × EscrowCall)) (db : Db) → P db → P (run_escrows calls db)
  unfolding run_escrows
  run_escrows-keeps [] db h = h
  run_escrows-keeps ((aborts, call) ∷ calls) db h =
      run_escrows-keeps calls (run_escrow aborts call db) (run_escrow-keeps aborts call db h)

-- After any sequence of escrow calls, failed and retried ones among them, the row of a trade that
-- was there before is still there, has its parties, its asset, its amount, its fees and its offer
-- unchanged, and its status is reached from the earlier one by legal transitions alone.
pub trade_obeys_transitions :
    (calls : List ((ℕ → Option PgCode) × EscrowCall)) (db : Db) (t : Trade)
    → find_trade t.id db.trades ≡ some t
    → Follows t (run_escrows calls db)
trade_obeys_transitions calls db t h =
    run_escrows-keeps (Follows-Survives t) calls db (t, h, same, here)
  where
    same : SameTerms t t
    same = record {
      id = refl;
      seller = refl;
      buyer = refl;
      asset = refl;
      amount = refl;
      fee = refl;
      seller_fee = refl;
      offer = refl;
    }

-- The statuses that end a trade.
abbrev pub is_final : TradeStatus → Bool
is_final completed = true
is_final cancelled = true
is_final expired = true
is_final resolved_release = true
is_final resolved_refund = true
is_final opened = false
is_final escrow_locked = false
is_final payment_submitted = false
is_final disputed = false

final-is_legal : (s u : TradeStatus) → is_final s ≡ true → is_legal s u ≡ false
unfolding is_legal
final-is_legal s u h = ground arith

Progress-final : {s u : TradeStatus} → is_final s ≡ true → Progress s u → u ≡ s
Progress-final h here = refl
Progress-final {s} {u} h (next {t} p legal) =
    let same : t ≡ s = Progress-final h p in cc (final-is_legal s u h, rw same at legal)

-- A trade in a final status stays in it, whatever escrow calls follow.
pub final_status_stays :
    (calls : List ((ℕ → Option PgCode) × EscrowCall)) (db : Db) (t : Trade)
    → find_trade t.id db.trades ≡ some t
    → is_final t.status ≡ true
    → (u : Trade) × (find_trade t.id (run_escrows calls db).trades ≡ some u) × (u.status ≡ t.status)
final_status_stays calls db t h final =
    let (u, found, terms, path) = trade_obeys_transitions calls db t h in
    (u, found, Progress-final final path)
