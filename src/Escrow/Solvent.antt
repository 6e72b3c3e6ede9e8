-- ===== src/Escrow/Solvent.antt =====
-- Every transaction of EscrowService (backend/src/modules/escrow/escrow.service.ts) leaves the
-- escrow accounts backed.
use quata_trade.Prelude.{
  ℕ, ◌≡◌, refl, sym, ap, ◌∙◌, true, Option, none, some, Option-cases, inl, inr, String, List,
}
use quata_trade.Domain.{
  TradeStatus, opened, escrow_locked, payment_submitted, completed, cancelled, expired, disputed,
  resolved_release, resolved_refund, OfferStatus, active, paused, exhausted, deleted,
}
use quata_trade.Errors.{Error}
use quata_trade.Tx.{ok, Tx, pure, throw, ◌>>=◌, ◌>>◌}
use quata_trade.Tx.Guards.{ok_inj}
use quata_trade.Tx.Ensures.{Ensures, Ensures-run, Ensures-bind, Ensures-then}
use quata_trade.Ledger.{Actor, Ledger, Journal, find_journal}
use quata_trade.Db.{Db, Trade, Offer}
use quata_trade.Escrow.{
  Extra, trade_key, find_trade, find_offer, lock_trade, transition, restock_row, restock_offer,
  lock_escrow, post_release, post_refund,
}
use quata_trade.Escrow.Progress.{transition_ok, find_trade-id}
use quata_trade.Escrow.Effects.{lock_escrow_ok, post_refund_ok, post_release_ok}
use quata_trade.Escrow.Backing.{
  is_funded, Free, KeysFree, Backed, Between, Settled, Backed-transition,
}
use quata_trade.Escrow.Settling.{
  IsEnd, Settled-quiet, Settled-refund, Settled-release, Settled-lock,
}

-- Backed, with the row of `t` as it was read.
abbrev pub Reading : Trade → Db → Type 0
Reading t db = Backed db × (find_trade t.id db.trades ≡ some t)

pub lock_trade_ok :
    (id : ℕ) (db db' : Db) (t : Trade)
    → lock_trade id db ≡ ok (t, db')
    → (db' ≡ db) × (find_trade id db.trades ≡ some t)
unfolding lock_trade
lock_trade_ok id db db' t h = elim (Option-cases (find_trade id db.trades)) [
  | inl absent ↦ cc (rw (absent, lock_trade) at h)
  | inr (u, found) ↦
      let e = ok_inj (rw (found, lock_trade) at h) in
      (ap (λ p. p.1) e, found ∙ ap (λ p. some p.0) (sym e))
]

pub Ensures-lock :
    {A : Type 0} {Q : Db → Type 0} (id : ℕ) (f : Trade → Tx Db A)
    → ((t : Trade) → Ensures (Reading t) Q (f t))
    → Ensures Backed Q (lock_trade id >>= f)
Ensures-lock id f k =
    Ensures-bind _ _ Reading
      (λ db db' t h e.
        let (same, found) = lock_trade_ok id db db' t e in
        let own : find_trade t.id db.trades ≡ some t =
          ap (λ i. find_trade i db.trades) (find_trade-id id db.trades found) ∙ found in
        rw same (h, own))
      k

pub Reading-pure : {A : Type 0} (t : Trade) (a : A) → Ensures (Reading t) Backed (pure a)
Reading-pure t a = record { at = λ db h. h.0 }

pub Reading-throw :
    {A : Type 0} (t : Trade) (e : Error) → Ensures {A = A} (Reading t) Backed (throw e)
Reading-throw t e = record { at = λ db h. tt }

pub funded_keys :
    (s : TradeStatus) (id : ℕ) (js : List Journal)
    → is_funded s ≡ true
    → KeysFree s id js
    → Free id "release" js × Free id "refund" js
funded_keys opened id js h k = absurd (cc)
funded_keys escrow_locked id js h k = k
funded_keys payment_submitted id js h k = k
funded_keys disputed id js h k = k
funded_keys completed id js h k = absurd (cc)
funded_keys cancelled id js h k = absurd (cc)
funded_keys expired id js h k = absurd (cc)
funded_keys resolved_release id js h k = absurd (cc)
funded_keys resolved_refund id js h k = absurd (cc)

unmoved : {db : Db} {l : Ledger} → Between l db (record db { ledger = l })
unmoved = record { ledger = refl; trades = refl; next_id = refl }

-- A transition on its own.
pub quiet_move :
    (t : Trade) (to : TradeStatus) (actor : Actor) (m : Option String) (x : Extra)
    → is_funded to ≡ is_funded t.status
    → ((db : Db) → KeysFree t.status t.id db.ledger.journals → KeysFree to t.id db.ledger.journals)
    → Ensures (Reading t) Backed (transition t to actor m x)
quiet_move t to actor m x same keys = Ensures-run _ (λ db db' u h e.
    Backed-transition t to actor m x h.0 h.1
      (Settled-quiet to x h.0.indexed same (keys db (h.0.keys t h.1))) unmoved
      (transition_ok t to actor m x db e))

restocked :
    (amount : ℕ) (o : Offer) (st : OfferStatus) (db : Db)
    → Between db.ledger db (restock_row amount o st db)
unfolding restock_row
restocked amount o deleted db = record { ledger = refl; trades = refl; next_id = refl }
restocked amount o active db = record { ledger = refl; trades = refl; next_id = refl }
restocked amount o paused db = record { ledger = refl; trades = refl; next_id = refl }
restocked amount o exhausted db = record { ledger = refl; trades = refl; next_id = refl }

pub restock_offer_ok :
    (id amount : ℕ) (db db' : Db) {u : Unit {0}}
    → restock_offer id amount db ≡ ok (u, db')
    → Between db.ledger db db'
unfolding restock_offer
restock_offer_ok id amount db db' h = elim (Option-cases (find_offer id db.offers)) [
  | inl absent ↦
      rw (ap (λ p. p.1) (ok_inj (rw (absent, restock_offer) at h)))
        (record { ledger = refl; trades = refl; next_id = refl })
  | inr (o, found) ↦
      rw (ap (λ p. p.1) (ok_inj (rw (found, restock_offer) at h))) (restocked amount o o.status db)
]

-- The row of `t` as it was read, after a restocking.
pub Restocked : Trade → Db → Type 0
Restocked t db1 = (db : Db) × Reading t db × Between db.ledger db db1

-- All is posted for the transition of `t` to `to`.
pub Ready : Trade → TradeStatus → Db → Type 0
Ready t to db1 =
    (db : Db) × (l : Ledger) × Reading t db
    × ((x : Extra) → Settled t to x db.ledger l)
    × Between l db db1

pub restock_keeps :
    (t : Trade) → Ensures (Reading t) (Restocked t) (restock_offer t.offer_id t.amount)
unfolding Restocked
restock_keeps t =
    Ensures-run _ (λ db db' u r e. (db, r, restock_offer_ok t.offer_id t.amount db db' e))

pub refund_Ready :
    (t : Trade) (to : TradeStatus) (actor : Actor)
    → is_funded t.status ≡ true
    → IsEnd to
    → Ensures (Restocked t) (Ready t to) (post_refund t actor)
unfolding Restocked Ready
refund_Ready t to actor h end = Ensures-run _ (λ d1 d2 id (db, r, b) e.
    let free = funded_keys t.status t.id db.ledger.journals h (r.0.keys t r.1) in
    let (l, posted, same) =
      post_refund_ok t actor d1 d2 (rw b.ledger r.0.indexed)
        (ap (λ (k : Ledger). find_journal (trade_key t.id "refund") k.journals) b.ledger ∙ free.1)
        e in
    (
      db,
      l,
      r,
      λ x. Settled-refund to x (rw b.ledger at posted) h end,
      rw same (record { ledger = refl; trades = b.trades; next_id = b.next_id }),
    ))

pub release_Ready :
    (t : Trade) (to : TradeStatus) (actor : Actor)
    → is_funded t.status ≡ true
    → IsEnd to
    → Ensures (Reading t) (Ready t to) (post_release t actor)
unfolding Ready
release_Ready t to actor h end = Ensures-run _ (λ db d2 id r e.
    let free = funded_keys t.status t.id db.ledger.journals h (r.0.keys t r.1) in
    let (l, posted, same) = post_release_ok t actor db d2 r.0.indexed free.0 e in
    (db, l, r, λ x. Settled-release to x posted h end, rw same unmoved))

pub Ready-transition :
    {A : Type 0} (t : Trade) (to : TradeStatus) (actor : Actor) (m : Option String) (x : Extra)
    (a : A)
    → Ensures (Ready t to) Backed (transition t to actor m x >> pure a)
unfolding Ready
Ready-transition t to actor m x a =
    Ensures-then
      (Ensures-run _ (λ d1 d2 u (db, l, r, s, b) e.
        Backed-transition t to actor m x r.0 r.1 (s x) b (transition_ok t to actor m x d1 e)))
      (λ u. record { at = λ db h. h })

pub lock_keeps :
    (t : Trade) (actor : Actor) (deadline : ℕ)
    → t.status ≡ opened
    → Ensures (Reading t) Backed (lock_escrow t actor deadline)
lock_keeps t actor deadline h = Ensures-run _ (λ db db' u r e.
    let free : KeysFree opened t.id db.ledger.journals = rw h at (r.0.keys t r.1) in
    let (l, posted, id, moves) = lock_escrow_ok t actor deadline db db' r.0.indexed free.0 e in
    Backed-transition t escrow_locked actor none _ r.0 r.1 (Settled-lock _ posted h free) unmoved
      moves)
