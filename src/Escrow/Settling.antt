-- ===== src/Escrow/Settling.antt =====
-- The escrow's transactions, one by one: each leaves the escrow accounts backed
-- (backend/src/modules/escrow/escrow.service.ts).
use quata_trade.Prelude.{
  ℕ, ◌≡◌, refl, sym, ap, ◌∙◌, ◌≢◌, ◌==◌, ℤ, pos, neg_ℤ, ◌+ℤ◌, zero_+ℤ, +ℤ_zero, int_laws, true,
  false, if◌then◌else◌, Option, none, some, Bool-cases, inl, inr, String, List, [], ◌∷◌, arith,
}
use text.Mathlib.Text.{◌==◌ as str_eq}
use quata_trade.Domain.{
  kind_eq, user_escrow, TradeStatus, opened, escrow_locked, AssetCode, AccountKind, user_available,
  platform_treasury,
}
use quata_trade.Ledger.{Journal, Ledger, find_journal, key_eq}
use quata_trade.Ledger.Holdings.{Ref, IsIndexed, ref_eq, moved, holding}
use quata_trade.Ledger.Transfers.{ref}
use quata_trade.Db.{Trade}
use quata_trade.Escrow.{Extra, moved_row, escrow_locked_amount, trade_key}
use quata_trade.Escrow.Effects.{escrowed, lock_moves, refund_moves, release_moves, Posting}
use quata_trade.Escrow.Backing.{
  is_funded, share, Free, KeysFree, KeysFree-other, escrow_of, Settled,
}

pub elsewhere :
    (p o : Option ℕ) (k : AccountKind) (a c : AssetCode)
    → kind_eq k user_escrow ≡ false
    → ref_eq (ref p k a) (escrow_of o c) ≡ false
elsewhere p o k a c h = ground arith

abbrev change : Trade → Ref → ℤ → ℤ
change t s v = if ref_eq (escrowed t) s then v else pos 0

drained :
    (t : Trade) (to : TradeStatus) (x : Extra) (s : Ref)
    → is_funded t.status ≡ true
    → is_funded to ≡ false
    → share s (moved_row t to x) ≡ change t s (neg_ℤ (pos (escrow_locked_amount t))) +ℤ share s t
unfolding share
drained t to x s h k = elim (Bool-cases (ref_eq (escrowed t) s)) [
  | inl same ↦ rw (same, h, k) (omega int_laws)
  | inr other ↦ rw other (sym (zero_+ℤ (pos 0)))
]

filled :
    (t : Trade) (to : TradeStatus) (x : Extra) (s : Ref)
    → is_funded t.status ≡ false
    → is_funded to ≡ true
    → share s (moved_row t to x) ≡ change t s (pos (escrow_locked_amount t)) +ℤ share s t
unfolding share
filled t to x s h k = elim (Bool-cases (ref_eq (escrowed t) s)) [
  | inl same ↦ rw (same, h, k) (omega int_laws)
  | inr other ↦ rw other (sym (zero_+ℤ (pos 0)))
]

lock_moves-change :
    (t : Trade) (o : Option ℕ) (c : AssetCode)
    → moved (lock_moves t) (escrow_of o c) ≡ change t (escrow_of o c) (pos (escrow_locked_amount t))
lock_moves-change t o c =
    rw
      (
        elsewhere (some t.seller_id) o user_available t.asset c refl,
        +ℤ_zero (pos (escrow_locked_amount t)),
      )
      refl

refund_moves-change :
    (t : Trade) (o : Option ℕ) (c : AssetCode)
    → moved (refund_moves t) (escrow_of o c)
      ≡ change t (escrow_of o c) (neg_ℤ (pos (escrow_locked_amount t)))
refund_moves-change t o c =
    rw
      (
        elsewhere (some t.seller_id) o user_available t.asset c refl,
        +ℤ_zero (neg_ℤ (pos (escrow_locked_amount t))),
      )
      refl

release_moves-change :
    (t : Trade) (o : Option ℕ) (c : AssetCode)
    → moved (release_moves t) (escrow_of o c)
      ≡ change t (escrow_of o c) (neg_ℤ (pos (escrow_locked_amount t)))
release_moves-change t o c =
    rw
      (
        elsewhere (some t.buyer_id) o user_available t.asset c refl,
        elsewhere none o platform_treasury t.asset c refl,
        +ℤ_zero (neg_ℤ (pos (escrow_locked_amount t))),
      )
      refl

others_free :
    {t : Trade} {action : String} {ms : List (Ref × ℤ)} {l l' : Ledger}
    → Posting t action ms l l'
    → (s : TradeStatus) (id : ℕ) → id ≢ t.id
    → KeysFree s id l.journals
    → KeysFree s id l'.journals
others_free {t} {action} {ms} {l} {l'} p s id ne h =
    let (j, newest, key) = p.recorded in
    rw newest (KeysFree-other s id t.id action j l.journals key ne h)

-- A trade that ends needs no more keys.
abbrev pub IsEnd : TradeStatus → Type 0
IsEnd s = (is_funded s ≡ false) × ((id : ℕ) (js : List Journal) → KeysFree s id js)

pub Settled-refund :
    {t : Trade} {l l' : Ledger} (to : TradeStatus) (x : Extra)
    → Posting t "refund" (refund_moves t) l l'
    → is_funded t.status ≡ true
    → IsEnd to
    → Settled t to x l l'
Settled-refund {t} {l} {l'} to x p h (spent, done) = record {
  ms = refund_moves t;
  moves = p.moves;
  indexed = p.indexed;
  others = others_free p;
  own = done t.id l'.journals;
  balances = λ o c.
      drained t to x (escrow_of o c) h spent
      ∙ ap (λ v. v +ℤ share (escrow_of o c) t) (sym (refund_moves-change t o c));
}

pub Settled-release :
    {t : Trade} {l l' : Ledger} (to : TradeStatus) (x : Extra)
    → Posting t "release" (release_moves t) l l'
    → is_funded t.status ≡ true
    → IsEnd to
    → Settled t to x l l'
Settled-release {t} {l} {l'} to x p h (spent, done) = record {
  ms = release_moves t;
  moves = p.moves;
  indexed = p.indexed;
  others = others_free p;
  own = done t.id l'.journals;
  balances = λ o c.
      drained t to x (escrow_of o c) h spent
      ∙ ap (λ v. v +ℤ share (escrow_of o c) t) (sym (release_moves-change t o c));
}

own-Free :
    (id : ℕ) (a b : String) (j : Journal) (js : List Journal)
    → j.idempotency_key ≡ trade_key id b
    → str_eq b a ≡ false
    → Free id a js
    → Free id a (j ∷ js)
unfolding find_journal key_eq
own-Free id a b j js k ne h =
    let apart : key_eq j.idempotency_key (trade_key id a) ≡ false =
      rw (k, ne) (elim (Bool-cases (id == id)) [ inl e ↦ rw e refl | inr e ↦ rw e refl ]) in
    rw apart h

pub Settled-lock :
    {t : Trade} {l l' : Ledger} (x : Extra)
    → Posting t "lock" (lock_moves t) l l'
    → t.status ≡ opened
    → KeysFree opened t.id l.journals
    → Settled t escrow_locked x l l'
Settled-lock {t} {l} {l'} x p h (a, b, c) =
    let (j, newest, key) = p.recorded in
    record {
      ms = lock_moves t;
      moves = p.moves;
      indexed = p.indexed;
      others = others_free p;
      own = simp newest (
        own-Free t.id "release" "lock" j l.journals key refl b,
        own-Free t.id "refund" "lock" j l.journals key refl c,
      );
      balances = λ o c.
          filled t escrow_locked x (escrow_of o c) (ap is_funded h) refl
          ∙ ap (λ v. v +ℤ share (escrow_of o c) t) (sym (lock_moves-change t o c));
    }

-- Nothing is posted.
pub Settled-quiet :
    {t : Trade} {l : Ledger} (to : TradeStatus) (x : Extra)
    → IsIndexed l
    → is_funded to ≡ is_funded t.status
    → KeysFree to t.id l.journals
    → Settled t to x l l
unfolding share
Settled-quiet {t} {l} to x indexed h own = record {
  ms = [];
  moves = λ s. sym (zero_+ℤ (holding l s));
  indexed = indexed;
  others = λ s id ne k. k;
  own = own;
  balances = λ o c. rw h (sym (zero_+ℤ _));
}
