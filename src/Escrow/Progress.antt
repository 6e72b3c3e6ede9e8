-- ===== src/Escrow/Progress.antt =====
-- The life of one trade under the escrow's transactions.
use quata_trade.Prelude.{
  ℕ, ◌≡◌, ◌≢◌, refl, ap, ◌∙◌, sym, true, Option, some, Bool-cases, not, inl, inr, List, [], ◌∷◌,
  ◌==◌, ==→eq, if◌then◌else◌, String, arith,
}
use quata_trade.Domain.{TradeStatus, status_eq}
use quata_trade.Errors.{illegal_transition, pg, raise_exception}
use quata_trade.Tx.{Result, ok, err, Result-cases}
use quata_trade.Tx.Guards.{guard_ok, found_ok, ok_inj}
use quata_trade.Tx.Preserves.{Preserves}
use quata_trade.Ledger.{Actor}
use quata_trade.Db.{Db, Trade}
use quata_trade.Escrow.{
  find_trade, set_trade, is_legal, transition, Extra, moved_row, write_transition, passes_trigger,
}

-- A path along the legal transitions.
pub data Progress (s : TradeStatus) : TradeStatus → Type 0 where
  here : Progress s s
  next : {t u : TradeStatus} → Progress s t → is_legal t u ≡ true → Progress s u

-- What a trade keeps for life.
pub record SameTerms (t u : Trade) : Type 0 where
  pub id : u.id ≡ t.id
  pub seller : u.seller_id ≡ t.seller_id
  pub buyer : u.buyer_id ≡ t.buyer_id
  pub asset : u.asset ≡ t.asset
  pub amount : u.amount ≡ t.amount
  pub fee : u.fee_amount ≡ t.fee_amount
  pub seller_fee : u.seller_fee_amount ≡ t.seller_fee_amount
  pub offer : u.offer_id ≡ t.offer_id

-- The row of a trade that was `t`: its status is on a legal path from that of `t`.
abbrev pub Follows : Trade → Db → Type 0
Follows t db =
    (u : Trade) × (find_trade t.id db.trades ≡ some u) × SameTerms t u × Progress t.status u.status

pub find_trade-id : (id : ℕ) (ts : List Trade) {t : Trade} → find_trade id ts ≡ some t → t.id ≡ id
unfolding find_trade
find_trade-id id [] h = cc
find_trade-id id (x ∷ ts) {t} h = ground (arith, find_trade-id id ts {t = t})

pub find_trade-set_self :
    (id : ℕ) (v : Trade) (ts : List Trade) {u : Trade}
    → v.id ≡ id
    → find_trade id ts ≡ some u
    → find_trade id (set_trade v ts) ≡ some v
unfolding find_trade set_trade
find_trade-set_self id v [] h k = cc
find_trade-set_self id v (x ∷ ts) {u} h k = ground (arith, find_trade-set_self id v ts {u = u} h)

pub find_trade-set_ne :
    (id : ℕ) (v : Trade) (ts : List Trade)
    → id ≢ v.id
    → find_trade id (set_trade v ts) ≡ find_trade id ts
unfolding find_trade set_trade
find_trade-set_ne id v [] h = refl
find_trade-set_ne id v (x ∷ ts) h = ground (arith, find_trade-set_ne id v ts h)

pub status_eq→eq : (s t : TradeStatus) → status_eq s t ≡ true → s ≡ t
unfolding status_eq
status_eq→eq s t h = ground arith

-- A transition that goes through found the row in the status that the caller read, and the trigger
-- let it pass.
pub record Transitioned (trade : Trade) (to : TradeStatus) (actor : Actor) (m : Option String)
    (x : Extra) (db db' : Db) : Type 0 where
  pub row : Trade
  pub found : find_trade trade.id db.trades ≡ some row
  pub same_status : row.status ≡ trade.status
  pub passes : passes_trigger row.status to ≡ true
  pub written : db' ≡ write_transition row trade to actor m x db

pub transition_ok :
    (trade : Trade) (to : TradeStatus) (actor : Actor) (m : Option String) (x : Extra) (db : Db)
    {u : Unit {0}} {db' : Db}
    → transition trade to actor m x db ≡ ok (u, db')
    → Transitioned trade to actor m x db db'
unfolding transition
transition_ok trade to actor m x db {u} {db'} h =
    go (found_ok (find_trade trade.id db.trades) (illegal_transition trade.status to) guarded h)
  where
    writing : Trade → Result (Unit {0} × Db)
    writing row = ok (tt, write_transition row trade to actor m x db)

    triggered : Trade → Result (Unit {0} × Db)
    triggered row =
        if not (passes_trigger row.status to) then err (pg raise_exception) else writing row

    guarded : Trade → Result (Unit {0} × Db)
    guarded row =
        if not (status_eq row.status trade.status)
        then err (illegal_transition trade.status to)
        else triggered row

    finish :
        (row : Trade)
        → find_trade trade.id db.trades ≡ some row
        → (status_eq row.status trade.status ≡ true) × (triggered row ≡ ok (u, db'))
        → Transitioned trade to actor m x db db'
    finish row found (same, k) =
        let (passes, written) =
          guard_ok (passes_trigger row.status to) (pg raise_exception) (writing row) k in
        record {
          row = row;
          found = found;
          same_status = status_eq→eq row.status trade.status same;
          passes = passes;
          written = ap (λ p. p.1) (ok_inj written);
        }

    go :
        (row : Trade) × (find_trade trade.id db.trades ≡ some row) × (guarded row ≡ ok (u, db'))
        → Transitioned trade to actor m x db db'
    go (row, found, k) = finish row found (
        guard_ok (status_eq row.status trade.status) (illegal_transition trade.status to)
          (triggered row) k)

advance :
    {s : TradeStatus} (t u : TradeStatus) → Progress s t → passes_trigger t u ≡ true → Progress s u
unfolding passes_trigger
advance t u p h = elim (Bool-cases (status_eq t u)) [
  | inl same ↦ rw (sym (status_eq→eq t u same)) p
  | inr other ↦ next p (rw other at h)
]

SameTerms-moved :
    {t u : Trade} → SameTerms t u → (to : TradeStatus) (x : Extra) → SameTerms t (moved_row u to x)
SameTerms-moved s to x = record {
  id = s.id;
  seller = s.seller;
  buyer = s.buyer;
  asset = s.asset;
  amount = s.amount;
  fee = s.fee;
  seller_fee = s.seller_fee;
  offer = s.offer;
}

module _ (t : Trade) where
  written_row :
      (trade : Trade) (to : TradeStatus) (actor : Actor) (m : Option String) (x : Extra) (db : Db)
      (row : Trade)
      → find_trade trade.id db.trades ≡ some row
      → passes_trigger row.status to ≡ true
      → Follows t db
      → Follows t (write_transition row trade to actor m x db)
  unfolding write_transition
  written_row trade to actor m x db row at_row passes (u, found, terms, path) =
      elim (Bool-cases (t.id == trade.id)) [
        | inl same ↦ (
          moved_row row to x,
          find_trade-set_self t.id (moved_row row to x) db.trades {u = u}
              (ground (arith, find_trade-id trade.id db.trades at_row)) found,
          SameTerms-moved (rw (same_row same at_row found) at terms) to x,
          advance row.status to (rw (same_row same at_row found) at path) passes,
        )
        | inr other ↦ (
          u,
          find_trade-set_ne t.id (moved_row row to x) db.trades
                (ground (arith, find_trade-id trade.id db.trades at_row))
              ∙ found,
          terms,
          path,
        )
      ]
    where
      same_row :
          t.id == trade.id ≡ true
          → find_trade trade.id db.trades ≡ some row
          → find_trade t.id db.trades ≡ some u
          → u ≡ row
      same_row e h k = cc (rw (==→eq t.id trade.id e) at k)

  pub transition-Follows :
      (trade : Trade) (to : TradeStatus) (actor : Actor) (m : Option String) (x : Extra)
      → Preserves (Follows t) (transition trade to actor m x)
  transition-Follows trade to actor m x = record {
    at = λ db f. elim (Result-cases (transition trade to actor m x db)) [
      | inr (e, bad) ↦ rw bad tt
      | inl ((u, db'), good) ↦ rw good (go db db' f (transition_ok trade to actor m x db good))
    ];
  }
    where
      go : (db db' : Db) → Follows t db → Transitioned trade to actor m x db db' → Follows t db'
      go db db' f w = rw w.written (written_row trade to actor m x db w.row w.found w.passes f)
