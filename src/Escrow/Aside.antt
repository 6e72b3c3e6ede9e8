-- ===== src/Escrow/Aside.antt =====
-- Writes beside the trades: they leave the escrow accounts backed.
use quata_trade.Prelude.{ℕ, ◌≡◌, sym, ap, ◌∙◌, Option, String, List}
use quata_trade.Domain.{
  TradeStatus, opened, escrow_locked, payment_submitted, completed, cancelled, expired, disputed,
  resolved_release, resolved_refund, AssetCode,
}
use quata_trade.Tx.{Tx, ok}
use quata_trade.Tx.Preserves.{Preserves}
use quata_trade.Tx.Ensures.{Ensures-run, Ensures-Preserves}
use quata_trade.Ledger.{Ledger, Journal, find_journal}
use quata_trade.Ledger.Holdings.{IsIndexed, holding}
use quata_trade.Db.{Db}
use quata_trade.Escrow.{find_trade, trade_key}
use quata_trade.Escrow.Backing.{Backed, KeysFree, escrow_of}

-- A database with the same ledger, trades and next id.
pub Backed-same :
    (db db' : Db)
    → Backed db
    → db'.ledger ≡ db.ledger
    → db'.trades ≡ db.trades
    → db'.next_id ≡ db.next_id
    → Backed db'
Backed-same db db' h l t n = record {
  indexed = simp l h.indexed;
  backed = λ o c. simp (l, t) (h.backed o c);
  keys = λ u at_u. simp l (h.keys u (ap (find_trade u.id) (sym t) ∙ at_u));
  future = λ id later. simp (l, t) (h.future id (rw n at later));
}

-- What touches no ledger, no trade and no id.
pub elsewhere-Backed :
    {A : Type 0} (m : Tx Db A)
    → ((db db' : Db) (a : A)
        → m db ≡ ok (a, db')
        → (db'.ledger ≡ db.ledger) × (db'.trades ≡ db.trades) × (db'.next_id ≡ db.next_id))
    → Preserves Backed m
elsewhere-Backed m k =
    Ensures-Preserves
      (Ensures-run m (λ db db' a h e. let (l, t, n) = k db db' a e in Backed-same db db' h l t n))

abbrev SameKeys : ℕ → List Journal → List Journal → Type 0
SameKeys id js js' =
    (action : String)
    → find_journal (trade_key id action) js' ≡ find_journal (trade_key id action) js

KeysFree-same :
    (s : TradeStatus) (id : ℕ) (js js' : List Journal)
    → SameKeys id js js'
    → KeysFree s id js
    → KeysFree s id js'
KeysFree-same opened id js js' e (x, y, z) = (e "lock" ∙ x, e "release" ∙ y, e "refund" ∙ z)
KeysFree-same escrow_locked id js js' e (y, z) = (e "release" ∙ y, e "refund" ∙ z)
KeysFree-same payment_submitted id js js' e (y, z) = (e "release" ∙ y, e "refund" ∙ z)
KeysFree-same disputed id js js' e (y, z) = (e "release" ∙ y, e "refund" ∙ z)
KeysFree-same completed id js js' e h = tt
KeysFree-same cancelled id js js' e h = tt
KeysFree-same expired id js js' e h = tt
KeysFree-same resolved_release id js js' e h = tt
KeysFree-same resolved_refund id js js' e h = tt

-- Postings that touch no escrow account and no key of a trade.
pub Backed-ledger :
    (db : Db) (l : Ledger)
    → Backed db
    → IsIndexed l
    → ((o : Option ℕ) (c : AssetCode)
        → holding l (escrow_of o c) ≡ holding db.ledger (escrow_of o c))
    → ((id : ℕ) → SameKeys id db.ledger.journals l.journals)
    → Backed (record db { ledger = l })
Backed-ledger db l h x same keys = record {
  indexed = x;
  backed = λ o c. same o c ∙ h.backed o c;
  keys = λ t at_t.
      KeysFree-same t.status t.id db.ledger.journals l.journals (keys t.id) (h.keys t at_t);
  future = λ id later.
      let (absent, free) = h.future id later in
      (absent, KeysFree-same opened id db.ledger.journals l.journals (keys id) free);
}
