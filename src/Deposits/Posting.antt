-- ===== src/Deposits/Posting.antt =====
-- The journal of a credit goes through: nothing can overdraw it where the fee is below the amount
-- (backend/src/modules/deposits/deposit-confirmation.service.ts).
use quata_trade.Prelude.{
  ℕ, ◌-◌, ◌<◌, ◌≡◌, ◌≢◌, refl, sym, ◌∙◌, pos, neg_ℤ, ◌-ℤ◌, int_laws, true, false, Option, none,
  some, Option-cases, Bool-cases, inl, inr, [], ◌==◌, ltb, arith,
}
use mathlib.Core.Path.{subst}
use quata_trade.Domain.{AccountKind, AssetCode, external, user_available, platform_treasury}
use quata_trade.Tx.{ok}
use quata_trade.Ledger.{JournalResult, Ledger, find_balance, get_or_create_account, key_length}
use quata_trade.Ledger.Legs.{IsBalanced}
use quata_trade.Ledger.Holdings.{Ref, ref_eq, IsIndexed, account_of, ids-ref_eq}
use quata_trade.Ledger.Transfers.{ref}
use quata_trade.Ledger.Opening.{get_or_create_account-Opened}
use quata_trade.Ledger.Invariant.{IsConsistent}
use quata_trade.Ledger.Outside.{KnowsOutside, row_kept, opened_outside}
use quata_trade.Ledger.Success.{Affords, CanPost, post_journal_succeeds}
use quata_trade.Escrow.Refunds.{
  known-HasAsset, takes_credit, neg_not_zero, kept_consistent, posted_ok,
}
use quata_trade.Postings.{pair_posting_runs, triple_posting_runs}
use quata_trade.Db.{Db, Deposit}
use quata_trade.Deposits.{Terms, deposit_input, fee_legs, plain_legs, record_credit, post_credit}

apart :
    (s t : Ref) (l : Ledger) {a b : ℕ}
    → IsIndexed l
    → account_of s l.accounts ≡ some a
    → account_of t l.accounts ≡ some b
    → ref_eq s t ≡ false
    → b ≢ a
apart s t l {a} {b} x hs ht differ e =
    let no : (a == b) ≡ false = ids-ref_eq s t l x hs ht ∙ differ in ground arith

net_amount : (amount fee : ℕ) → fee < amount → pos amount -ℤ pos fee ≡ pos (amount - fee)
net_amount amount fee h = omega int_laws

pos_not_zero : (n : ℕ) → 0 < n → pos n ≢ pos 0
pos_not_zero n h e = ground arith

-- A row that is there takes a credit, also after an account was opened.
still_takes :
    (a : ℕ) (o : Option ℕ) (k : AccountKind) (c : AssetCode) (l l' : Ledger) (n : ℕ) {m : ℕ}
    → get_or_create_account o k c l ≡ ok (m, l')
    → IsConsistent l'
    → find_balance a l.balances ≢ none
    → Affords l'.balances (record { account_id = a; amount = pos n })
still_takes a o k c l l' n e h present = takes_credit a l'.balances n h.non_negative λ gone.
    elim (Option-cases (find_balance a l.balances)) [
      | inl absent ↦ present absent
      | inr (b, row) ↦ cc (sym gone ∙ row_kept a o k c l l' e row)
    ]

module _ (t : Terms) (d : Deposit) (fee : ℕ) (below : fee < d.amount) where
  abbrev outside_ref : Ref
  outside_ref = ref none external d.asset

  abbrev user_ref : Ref
  user_ref = ref (some d.user_id) user_available d.asset

  abbrev treasury_ref : Ref
  treasury_ref = ref none platform_treasury d.asset

  fee_legs-IsBalanced :
      (a u r : ℕ)
      → u ≢ a
      → r ≢ a
      → r ≢ u
      → 0 < fee
      → IsBalanced (deposit_input d (fee_legs d fee a u r))
  unfolding key_length
  fee_legs-IsBalanced a u r ua ra ru charged = record {
    two_legs = omega arith;
    distinct = ((ua, (ra, tt)), ((ru, tt), (tt, tt)));
    non_zero = (
      neg_not_zero d.amount (omega arith),
      (
        (λ e.
            pos_not_zero (d.amount - fee) (omega arith) (sym (net_amount d.amount fee below) ∙ e)),
        (pos_not_zero fee charged, tt),
      ),
    );
    balanced = omega int_laws;
    long_key = omega arith;
  }

  plain_legs-IsBalanced : (a u : ℕ) → u ≢ a → IsBalanced (deposit_input d (plain_legs d a u))
  unfolding key_length
  plain_legs-IsBalanced a u ua = record {
    two_legs = omega arith;
    distinct = ((ua, tt), (tt, tt));
    non_zero = (neg_not_zero d.amount (omega arith), (pos_not_zero d.amount (omega arith), tt));
    balanced = omega int_laws;
    long_key = omega arith;
  }

  -- The journal is posted, and the transaction goes on with the record of the credit.
  abbrev Goes : Db → Type 0
  Goes db =
      (r : JournalResult) × (l : Ledger) × (post_credit t d fee db
        ≡ record_credit t d fee r (record db { ledger = l }))

  fee_credit_runs :
      (db : Db)
      → IsIndexed db.ledger
      → IsConsistent db.ledger
      → KnowsOutside d.asset db.ledger
      → ltb 0 fee ≡ true
      → Goes db
  unfolding post_credit
  fee_credit_runs db x c knows charged =
      let (a, l1, e1, w1) = get_or_create_account-Opened none external d.asset db.ledger x in
      let (u, l2, e2, w2) =
        get_or_create_account-Opened (some d.user_id) user_available d.asset l1 w1.indexed in
      let (v, l3, e3, w3) =
        get_or_create_account-Opened none platform_treasury d.asset l2 w2.indexed in
      let c2 : IsConsistent l2 =
        kept_consistent _ _ _ l1 l2 e2 (kept_consistent _ _ _ db.ledger l1 e1 c) in
      let c3 : IsConsistent l3 = kept_consistent _ _ _ l2 l3 e3 c2 in
      let at_a : account_of outside_ref l3.accounts ≡ some a =
        w3.keeps outside_ref a (w2.keeps outside_ref a w1.found) in
      let at_u : account_of user_ref l3.accounts ≡ some u = w3.keeps user_ref u w2.found in
      let (row, row_a, outside) = opened_outside d.asset db.ledger l1 x knows e1 in
      let post : CanPost (deposit_input d (fee_legs d fee a u v)) l3 = record {
        valid =
            fee_legs-IsBalanced a u v (apart outside_ref user_ref l3 w3.indexed at_a at_u refl)
              (apart outside_ref treasury_ref l3 w3.indexed at_a w3.found refl)
              (apart user_ref treasury_ref l3 w3.indexed at_u w3.found refl) (ground arith);
        accounts = (
          known-HasAsset outside_ref l3 w3.indexed at_a,
          (
            known-HasAsset user_ref l3 w3.indexed at_u,
            (known-HasAsset treasury_ref l3 w3.indexed w3.found, tt),
          ),
        );
        affords = (
          (row, row_kept a _ _ _ l2 l3 e3 (row_kept a _ _ _ l1 l2 e2 row_a), inl outside),
          (
            subst (λ n. Affords l3.balances (record { account_id = u; amount = n }))
                (sym (net_amount d.amount fee below))
                (still_takes u _ _ _ l2 l3 (d.amount - fee) e3 c3 w2.row),
            (takes_credit v l3.balances fee c3.non_negative w3.row, tt),
          ),
        );
      } in
      let (r, l4, posted) =
        posted_ok (deposit_input d (fee_legs d fee a u v)) l3 _ refl
          (post_journal_succeeds (deposit_input d (fee_legs d fee a u v)) l3 post) in
      (
        r,
        l4,
        rw charged (
            triple_posting_runs none (some d.user_id) none external user_available platform_treasury
              d.asset [] (λ a u v. deposit_input d (fee_legs d fee a u v)) (record_credit t d fee)
              db e1 e2 e3 posted),
      )

  plain_credit_runs :
      (db : Db)
      → IsIndexed db.ledger
      → IsConsistent db.ledger
      → KnowsOutside d.asset db.ledger
      → ltb 0 fee ≡ false
      → Goes db
  unfolding post_credit
  plain_credit_runs db x c knows free =
      let (a, l1, e1, w1) = get_or_create_account-Opened none external d.asset db.ledger x in
      let (u, l2, e2, w2) =
        get_or_create_account-Opened (some d.user_id) user_available d.asset l1 w1.indexed in
      let c2 : IsConsistent l2 =
        kept_consistent _ _ _ l1 l2 e2 (kept_consistent _ _ _ db.ledger l1 e1 c) in
      let at_a : account_of outside_ref l2.accounts ≡ some a = w2.keeps outside_ref a w1.found in
      let (row, row_a, outside) = opened_outside d.asset db.ledger l1 x knows e1 in
      let post : CanPost (deposit_input d (plain_legs d a u)) l2 = record {
        valid =
            plain_legs-IsBalanced a u (apart outside_ref user_ref l2 w2.indexed at_a w2.found refl);
        accounts = (
          known-HasAsset outside_ref l2 w2.indexed at_a,
          (known-HasAsset user_ref l2 w2.indexed w2.found, tt),
        );
        affords = (
          (row, row_kept a _ _ _ l1 l2 e2 row_a, inl outside),
          (takes_credit u l2.balances d.amount c2.non_negative w2.row, tt),
        );
      } in
      let (r, l3, posted) =
        posted_ok (deposit_input d (plain_legs d a u)) l2 _ refl
          (post_journal_succeeds (deposit_input d (plain_legs d a u)) l2 post) in
      (
        r,
        l3,
        rw free (
            pair_posting_runs none (some d.user_id) external user_available d.asset
              (neg_ℤ (pos d.amount)) (pos d.amount) (λ a u. deposit_input d (plain_legs d a u))
              (record_credit t d fee) db e1 e2 posted),
      )

  pub post_credit_runs :
      (db : Db)
      → IsIndexed db.ledger
      → IsConsistent db.ledger
      → KnowsOutside d.asset db.ledger
      → Goes db
  post_credit_runs db x c knows = elim (Bool-cases (ltb 0 fee)) [
    | inl charged ↦ fee_credit_runs db x c knows charged
    | inr free ↦ plain_credit_runs db x c knows free
  ]
