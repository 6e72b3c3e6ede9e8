-- ===== src/Escrow/Backing.antt =====
-- What stands in the escrow accounts, beside the trades that it belongs to
-- (backend/src/modules/escrow/escrow.service.ts).
use quata_trade.Prelude.{
  ℕ, ◌≤◌, ◌≡◌, ◌≢◌, refl, sym, ap, ◌∙◌, ℤ, pos, ◌+ℤ◌, +ℤ_assoc, int_laws, String, Bool, true, false,
  ◌&&◌, if◌then◌else◌, Option, none, some, Bool-cases, inl, inr, List, [], ◌∷◌, ◌==◌, ==→eq, arith,
}
use mathlib.Core.Path.{subst}
use quata_trade.Domain.{
  TradeStatus, opened, escrow_locked, payment_submitted, completed, cancelled, expired, disputed,
  resolved_release, resolved_refund, AssetCode, user_escrow,
}
use quata_trade.Ledger.{Actor, Journal, Ledger, find_journal, key_eq}
use quata_trade.Ledger.Holdings.{Ref, IsIndexed, ref_eq, moved, holding}
use quata_trade.Ledger.Transfers.{ref}
use quata_trade.Db.{Db, Trade}
use quata_trade.Escrow.{
  Extra, find_trade, set_trade, moved_row, write_transition, escrow_locked_amount, trade_key,
}
use quata_trade.Escrow.Progress.{Transitioned, find_trade-set_self, find_trade-set_ne}
use quata_trade.Escrow.Effects.{escrowed}

-- A trade whose coins are in escrow.
abbrev pub is_funded : TradeStatus → Bool
is_funded escrow_locked = true
is_funded payment_submitted = true
is_funded disputed = true
is_funded _ = false

-- What a trade keeps in an account, and what all of them do.
unfoldable pub share : Ref → Trade → ℤ
share s t =
    if ref_eq (escrowed t) s && is_funded t.status then pos (escrow_locked_amount t) else pos 0

unfoldable pub locked_in : Ref → List Trade → ℤ
locked_in s [] = pos 0
locked_in s (t ∷ ts) = share s t +ℤ locked_in s ts

abbrev pub Free : ℕ → String → List Journal → Type 0
Free id action js = find_journal (trade_key id action) js ≡ none

abbrev pub AllFree : ℕ → List Journal → Type 0
AllFree id js = Free id "lock" js × Free id "release" js × Free id "refund" js

-- The keys that the journals to come will need.
abbrev pub KeysFree : TradeStatus → ℕ → List Journal → Type 0
KeysFree opened id js = AllFree id js
KeysFree escrow_locked id js = Free id "release" js × Free id "refund" js
KeysFree payment_submitted id js = Free id "release" js × Free id "refund" js
KeysFree disputed id js = Free id "release" js × Free id "refund" js
KeysFree _ id js = Unit

abbrev pub escrow_of : Option ℕ → AssetCode → Ref
escrow_of owner asset = ref owner user_escrow asset

pub record Backed (db : Db) : Type 0 where
  pub indexed : IsIndexed db.ledger
  pub backed :
      (o : Option ℕ) (c : AssetCode)
      → holding db.ledger (escrow_of o c) ≡ locked_in (escrow_of o c) db.trades
  pub keys :
      (t : Trade) → find_trade t.id db.trades ≡ some t → KeysFree t.status t.id db.ledger.journals
  pub future :
      (id : ℕ) → db.next_id ≤ id → (find_trade id db.trades ≡ none) × AllFree id db.ledger.journals

some_inj : {A : Type 0} {a b : A} → some a ≡ some b → a ≡ b
some_inj h = cc

locked_in-set_trade :
    (s : Ref) (d : ℤ) (row new : Trade) (ts : List Trade)
    → new.id ≡ row.id
    → find_trade row.id ts ≡ some row
    → share s new ≡ d +ℤ share s row
    → locked_in s (set_trade new ts) ≡ d +ℤ locked_in s ts
unfolding locked_in find_trade set_trade
locked_in-set_trade s d row new [] e h k = absurd (cc)
locked_in-set_trade s d row new (t ∷ ts) e h k = elim (Bool-cases (t.id == row.id)) [
  | inl same ↦
      let here : t ≡ row = cc (rw same at h) in
      simp (e, same, k)
        (ap (λ r. d +ℤ share s r +ℤ locked_in s ts) (sym here)
          ∙ +ℤ_assoc d (share s t) (locked_in s ts))
  | inr other ↦
      rw (e, other, locked_in-set_trade s d row new ts e (rw other at h) k)
        (swap (share s t) d (locked_in s ts))
]
  where
    swap : (a b c : ℤ) → a +ℤ (b +ℤ c) ≡ b +ℤ (a +ℤ c)
    swap a b c = omega int_laws

key_apart :
    (id other : ℕ) (a b : String) → id ≢ other → key_eq (trade_key other b) (trade_key id a) ≡ false
unfolding key_eq
key_apart id other a b ne = let apart : (other == id) ≡ false = ground arith in rw apart refl

-- A journal of another trade takes no key of this one.
Free-other :
    (id other : ℕ) (a b : String) (j : Journal) (js : List Journal)
    → j.idempotency_key ≡ trade_key other b
    → id ≢ other
    → Free id a js
    → Free id a (j ∷ js)
unfolding find_journal
Free-other id other a b j js k ne h =
    let apart : key_eq j.idempotency_key (trade_key id a) ≡ false =
      rw k (key_apart id other a b ne) in
    rw apart h

AllFree-other :
    (id other : ℕ) (b : String) (j : Journal) (js : List Journal)
    → j.idempotency_key ≡ trade_key other b
    → id ≢ other
    → AllFree id js
    → AllFree id (j ∷ js)
AllFree-other id other b j js k ne (x, y, z) = (
  Free-other id other "lock" b j js k ne x,
  Free-other id other "release" b j js k ne y,
  Free-other id other "refund" b j js k ne z,
)

pub KeysFree-other :
    (s : TradeStatus) (id other : ℕ) (b : String) (j : Journal) (js : List Journal)
    → j.idempotency_key ≡ trade_key other b
    → id ≢ other
    → KeysFree s id js
    → KeysFree s id (j ∷ js)
KeysFree-other opened id other b j js k ne h = AllFree-other id other b j js k ne h
KeysFree-other escrow_locked id other b j js k ne (y, z) =
    (Free-other id other "release" b j js k ne y, Free-other id other "refund" b j js k ne z)
KeysFree-other payment_submitted id other b j js k ne (y, z) =
    (Free-other id other "release" b j js k ne y, Free-other id other "refund" b j js k ne z)
KeysFree-other disputed id other b j js k ne (y, z) =
    (Free-other id other "release" b j js k ne y, Free-other id other "refund" b j js k ne z)
KeysFree-other completed id other b j js k ne h = tt
KeysFree-other cancelled id other b j js k ne h = tt
KeysFree-other expired id other b j js k ne h = tt
KeysFree-other resolved_release id other b j js k ne h = tt
KeysFree-other resolved_refund id other b j js k ne h = tt

-- What the ledger of a trade's transaction may do to it before the status moves.
pub record Settled (t : Trade) (to : TradeStatus) (x : Extra) (l l' : Ledger) : Type 0 where
  pub ms : List (Ref × ℤ)
  pub moves : (s : Ref) → holding l' s ≡ moved ms s +ℤ holding l s
  pub indexed : IsIndexed l'
  pub others :
      (s : TradeStatus) (id : ℕ) → id ≢ t.id → KeysFree s id l.journals → KeysFree s id l'.journals
  pub own : KeysFree to t.id l'.journals
  pub balances :
      (o : Option ℕ) (c : AssetCode)
      → share (escrow_of o c) (moved_row t to x)
        ≡ moved ms (escrow_of o c) +ℤ share (escrow_of o c) t

-- The database after the ledger's part and before the transition.
pub record Between (l : Ledger) (db db' : Db) : Type 0 where
  pub ledger : db'.ledger ≡ l
  pub trades : db'.trades ≡ db.trades
  pub next_id : db'.next_id ≡ db.next_id

module _ (t : Trade) (to : TradeStatus) (actor : Actor) (m : Option String) (x : Extra)
    {db db1 db' : Db} {l : Ledger} where
  -- Such a transaction keeps the escrow accounts backed.
  pub Backed-transition :
      Backed db
      → find_trade t.id db.trades ≡ some t
      → Settled t to x db.ledger l
      → Between l db db1
      → Transitioned t to actor m x db1 db'
      → Backed db'
  unfolding write_transition
  Backed-transition h at_t s b w =
      let row : w.row ≡ t = cc (sym w.found ∙ ap (find_trade t.id) b.trades ∙ at_t) in
      let new : Trade = moved_row t to x in
      let trades : db'.trades ≡ set_trade new db.trades =
        ap (λ d. d.trades) w.written
        ∙ ap (λ r. set_trade (moved_row r to x) db1.trades) row
        ∙ ap (set_trade new) b.trades in
      let ledger : db'.ledger ≡ l = ap (λ d. d.ledger) w.written ∙ b.ledger in
      let next_id : db'.next_id ≡ db.next_id = ap (λ d. d.next_id) w.written ∙ b.next_id in
      record {
        indexed = simp ledger s.indexed;
        backed = λ o c.
            simp (ledger, trades)
              (s.moves (escrow_of o c)
                ∙ ap (λ v. moved s.ms (escrow_of o c) +ℤ v) (h.backed o c)
                ∙ sym (
                    locked_in-set_trade (escrow_of o c) (moved s.ms (escrow_of o c)) t new db.trades
                      refl at_t (s.balances o c)));
        keys = λ u at_u. elim (Bool-cases (u.id == t.id)) [
          | inl same ↦
              let e : u ≡ new = some_inj (
                sym at_u
                ∙ ap (λ i. find_trade i db'.trades) (==→eq u.id t.id same)
                ∙ ap (find_trade t.id) trades
                ∙ find_trade-set_self t.id new db.trades refl at_t) in
              subst (λ (v : Trade). KeysFree v.status v.id db'.ledger.journals) (sym e)
                (simp ledger s.own)
          | inr other ↦
              let ne : u.id ≢ t.id = ground arith in
              simp ledger (
                s.others u.status u.id ne (
                  h.keys u (
                    sym (find_trade-set_ne u.id new db.trades ne)
                    ∙ ap (find_trade u.id) (sym trades)
                    ∙ at_u)))
        ];
        future = λ id later.
            let (absent, free) = h.future id (rw next_id at later) in
            let ne : id ≢ t.id = λ e. cc (sym absent ∙ ap (λ i. find_trade i db.trades) e ∙ at_t) in
            (
              ap (find_trade id) trades ∙ find_trade-set_ne id new db.trades ne ∙ absent,
              simp ledger (s.others opened id ne free),
            );
      }
