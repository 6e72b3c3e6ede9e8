-- ===== src/Escrow/Refunds.antt =====
-- A refund finds its money: `postRefund` never fails where the escrow account holds what the trade has
-- locked (backend/src/modules/escrow/escrow.service.ts).
use quata_trade.Prelude.{
  ℕ, ◌<◌, ◌≡◌, ◌≢◌, refl, sym, ap, ◌∙◌, ℤ, pos, neg_ℤ, ◌+ℤ◌, ◌≤ℤ◌, int_laws, true, false, Option,
  none, some, Option-cases, Bool-cases, inl, inr, ◌⊎◌, List, [], ◌∷◌, ◌==◌, arith,
}
use mathlib.Core.Path.{subst}
use quata_trade.Domain.{
  AccountKind, AssetCode, asset_eq, is_external, user_available, user_escrow, escrow_refund,
}
use quata_trade.Tx.{Result, ok, err, IsOk}
use quata_trade.Ledger.{
  Actor, Balance, JournalInput, JournalResult, Ledger, trade_ref, find_balance, balance_of,
  get_or_create_account, post_journal, key_length,
}
use quata_trade.Ledger.Rows.{NonNegative}
use quata_trade.Ledger.Legs.{IsBalanced}
use quata_trade.Ledger.Holdings.{
  Ref, ref_eq, IsIndexed, account_of, account-row, holding, holding_known, ids-ref_eq,
}
use quata_trade.Ledger.Opening.{get_or_create_account-Opened}
use quata_trade.Ledger.Invariant.{IsConsistent}
use quata_trade.Ledger.Consistency.{get_or_create_account-Keeps}
use quata_trade.Ledger.Success.{HasAsset, Affords, CanPost, post_journal_succeeds}
use quata_trade.Postings.{pair_posting_runs}
use quata_trade.Db.{Db, Trade, on_ledger}
use quata_trade.Escrow.{escrow_locked_amount, trade_key, trade_legs, post_refund}
use quata_trade.Escrow.Effects.{available, escrowed}

asset_eq_self : (c : AssetCode) → asset_eq c c ≡ true
asset_eq_self c = ground arith

pub known-HasAsset :
    (s : Ref) (l : Ledger) {a : ℕ}
    → IsIndexed l
    → account_of s l.accounts ≡ some a
    → HasAsset s.asset l.accounts a
known-HasAsset s l {a} x h =
    let (r, found, same) = account-row s l.accounts a x.ids h in
    (r, found, ap (λ (q : Ref). asset_eq q.asset s.asset) same ∙ asset_eq_self s.asset)

covers : (b : ℤ) (n : ℕ) → pos n ≤ℤ b → pos 0 ≤ℤ b +ℤ neg_ℤ (pos n)
covers b n h = omega (int_laws, h)

grows : (b : ℤ) (n : ℕ) → pos 0 ≤ℤ b → pos 0 ≤ℤ b +ℤ pos n
grows b n h = omega (int_laws, h)

too_much : (n : ℕ) → 0 < n → pos n ≤ℤ pos 0 → ⊥
too_much n more h = omega arith

some_inj : {A : Type 0} {a b : A} → some a ≡ some b → a ≡ b
some_inj h = cc

has_funds :
    (s : Ref) (l : Ledger) {a : ℕ} (n : ℕ)
    → account_of s l.accounts ≡ some a
    → 0 < n
    → pos n ≤ℤ holding l s
    → Affords l.balances (record { account_id = a; amount = neg_ℤ (pos n) })
unfolding balance_of
has_funds s l {a} n at_a more h =
    let enough : pos n ≤ℤ balance_of a l.balances = rw (holding_known s l at_a) at h in
    elim (Option-cases (find_balance a l.balances)) [
      | inl absent ↦ absurd (too_much n more (rw (absent, balance_of) at enough))
      | inr (b, found) ↦ (b, found, inr (covers b.balance n (rw (found, balance_of) at enough)))
    ]

row-NonNegative :
    (a : ℕ) (bs : List Balance) {b : Balance}
    → NonNegative bs
    → find_balance a bs ≡ some b
    → (is_external b.kind ≡ true) ⊎ (pos 0 ≤ℤ b.balance)
unfolding find_balance
row-NonNegative a [] h e = absurd (cc)
row-NonNegative a (r ∷ bs) {b} h e = elim (Bool-cases (r.account_id == a)) [
  | inl same ↦
      let here : r ≡ b = some_inj (rw same at e) in
      subst (λ (q : Balance). (is_external q.kind ≡ true) ⊎ (pos 0 ≤ℤ q.balance)) here h.0
  | inr other ↦ row-NonNegative a bs h.1 (rw other at e)
]

-- A row can be credited.
pub takes_credit :
    (a : ℕ) (bs : List Balance) (n : ℕ)
    → NonNegative bs
    → find_balance a bs ≢ none
    → Affords bs (record { account_id = a; amount = pos n })
takes_credit a bs n h present = elim (Option-cases (find_balance a bs)) [
  | inl absent ↦ absurd (present absent)
  | inr (b, found) ↦ (
    b,
    found,
    elim (row-NonNegative a bs h found) [
      | inl outside ↦ inl outside
      | inr enough ↦ inr (grows b.balance n enough)
    ],
  )
]

pub kinds_apart : (t : Trade) → ref_eq (escrowed t) (available t) ≡ false
kinds_apart t = ground arith

refund_input : Trade → Actor → ℕ → ℕ → JournalInput
refund_input t actor a b = record {
  reason = escrow_refund;
  reference_type = trade_ref;
  reference_id = t.id;
  idempotency_key = trade_key t.id "refund";
  created_by = actor;
  asset = t.asset;
  legs = trade_legs a (neg_ℤ (pos (escrow_locked_amount t))) b (pos (escrow_locked_amount t));
}

pub neg_not_zero : (n : ℕ) → 0 < n → neg_ℤ (pos n) ≢ pos 0
unfolding neg_ℤ
neg_not_zero n h e = ground arith

refund_input-IsBalanced :
    (t : Trade) (actor : Actor) (a b : ℕ)
    → a ≢ b
    → 0 < escrow_locked_amount t
    → IsBalanced (refund_input t actor a b)
unfolding refund_input key_length
refund_input-IsBalanced t actor a b ne more = record {
  two_legs = omega arith;
  distinct = ((λ e. ne (sym e), tt), (tt, tt));
  non_zero = (neg_not_zero (escrow_locked_amount t) more, (λ e. ground arith, tt));
  balanced = omega int_laws;
  long_key = omega arith;
}

pub kept_consistent :
    (o : Option ℕ) (k : AccountKind) (c : AssetCode) (l l' : Ledger) {a : ℕ}
    → get_or_create_account o k c l ≡ ok (a, l')
    → IsConsistent l
    → IsConsistent l'
kept_consistent o k c l l' e h = (rw e at (get_or_create_account-Keeps o k c l)) h

pub posted_ok :
    (input : JournalInput) (l : Ledger) (r : Result (JournalResult × Ledger))
    → r ≡ post_journal input l
    → IsOk r
    → (j : JournalResult) × (l' : Ledger) × (post_journal input l ≡ ok (j, l'))
posted_ok input l (ok (j, l')) e h = (j, l', sym e)
posted_ok input l (err x) e h = absurd h

pub post_refund_succeeds :
    (t : Trade) (actor : Actor) (db : Db)
    → IsIndexed db.ledger
    → IsConsistent db.ledger
    → 0 < escrow_locked_amount t
    → pos (escrow_locked_amount t) ≤ℤ holding db.ledger (escrowed t)
    → (id : ℕ) × (l : Ledger) × (post_refund t actor db ≡ ok (id, record db { ledger = l }))
unfolding post_refund on_ledger refund_input
post_refund_succeeds t actor db x c more funds =
    let (a, l1, e1, w1) =
      get_or_create_account-Opened (some t.seller_id) user_escrow t.asset db.ledger x in
    let (b, l2, e2, w2) =
      get_or_create_account-Opened (some t.seller_id) user_available t.asset l1 w1.indexed in
    let c2 : IsConsistent l2 =
      kept_consistent _ _ _ l1 l2 e2 (kept_consistent _ _ _ db.ledger l1 e1 c) in
    let at_a : account_of (escrowed t) l2.accounts ≡ some a = w2.keeps (escrowed t) a w1.found in
    let held : holding l2 (escrowed t) ≡ holding db.ledger (escrowed t) =
      w2.same (escrowed t) ∙ w1.same (escrowed t) in
    let ne : a ≢ b = λ e.
      let apart : (a == b) ≡ false =
        ids-ref_eq (escrowed t) (available t) l2 w2.indexed at_a w2.found ∙ kinds_apart t in
      ground arith in
    let post : CanPost (refund_input t actor a b) l2 = record {
      valid = refund_input-IsBalanced t actor a b ne more;
      accounts = (
        known-HasAsset (escrowed t) l2 w2.indexed at_a,
        (known-HasAsset (available t) l2 w2.indexed w2.found, tt),
      );
      affords = (
        has_funds (escrowed t) l2 (escrow_locked_amount t) at_a more (rw held funds),
        (takes_credit b l2.balances (escrow_locked_amount t) c2.non_negative w2.row, tt),
      );
    } in
    let (j, l3, posted) =
      posted_ok (refund_input t actor a b) l2 _ refl
        (post_journal_succeeds (refund_input t actor a b) l2 post) in
    (
      j.journal_id,
      l3,
      pair_posting_runs _ _ _ _ _ (neg_ℤ (pos (escrow_locked_amount t)))
          (pos (escrow_locked_amount t)) _ _ db e1 e2 posted,
    )
