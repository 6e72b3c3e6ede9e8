-- ===== src/Ledger/Success.antt =====
-- When `postJournal` goes through: a journal that passes `validate`, over known accounts of its
-- asset, of which none but an external one would be overdrawn.
use quata_trade.Prelude.{
  ℕ, ◌≡◌, ◌≢◌, refl, ap, ◌∙◌, sym, ℤ, pos, ◌+ℤ◌, ◌≤ℤ◌, +ℤ_assoc, +ℤ_zero, zero_+ℤ, true, false,
  none, some, ◌⊎◌, Bool-cases, Option-cases, leb, inl, inr, List, [], ◌∷◌, All, length, contains,
  arith,
}
use quata_trade.Domain.{AssetCode, asset_eq, is_external}
use quata_trade.Ledger.{
  Leg, Balance, Account, JournalInput, Ledger, find_journal, find_balance, find_account_row,
  scan_legs, validate, lock_order, insert_sorted, select_balances, lock_balances, check_accounts,
  new_balance, compute_updates, insert_journal, post_new, post_in_trx, post_journal,
}
use quata_trade.Ledger.Legs.{legs_sum, Avoids, Distinct, NonZero, IsBalanced, Fresh}
use quata_trade.Ledger.Rows.{Agrees}
use quata_trade.Ledger.Locks.{lock_order-Agrees}
use quata_trade.Tx.{IsOk, ok}

-- ------------------------------------------------- validate

Unseen : List ℕ → List Leg → Type 0
Unseen seen = All (λ leg. contains seen leg.account_id ≡ false)

Unseen-cons :
    (a : ℕ) (seen : List ℕ) (legs : List Leg)
    → Avoids a legs
    → Unseen seen legs
    → Unseen (a ∷ seen) legs
unfolding Unseen
Unseen-cons a seen [] h u = tt
Unseen-cons a seen (leg ∷ legs) h u = (ground (arith, h.0, u.0), Unseen-cons a seen legs h.1 u.1)

to_Fresh :
    (legs : List Leg) (seen : List ℕ)
    → Distinct legs
    → NonZero legs
    → Unseen seen legs
    → Fresh seen legs
unfolding Unseen
to_Fresh [] seen d n u = tt
to_Fresh (leg ∷ legs) seen d n u = (
  u.0,
  n.0,
  to_Fresh legs (leg.account_id ∷ seen) d.1 n.1 (Unseen-cons leg.account_id seen legs d.0 u.1),
)

scan_legs_ok :
    (legs : List Leg) (seen : List ℕ) (sum : ℤ)
    → Fresh seen legs
    → scan_legs legs seen sum ≡ ok (sum +ℤ legs_sum legs)
unfolding scan_legs
scan_legs_ok [] seen sum f = ap ok (sym (+ℤ_zero sum))
scan_legs_ok (leg ∷ legs) seen sum f = ground (
  arith,
  scan_legs_ok legs (leg.account_id ∷ seen) (sum +ℤ leg.amount) f.2,
  +ℤ_assoc sum leg.amount (legs_sum legs),
)

no_one_seen : (legs : List Leg) → Unseen [] legs
unfolding Unseen
no_one_seen [] = tt
no_one_seen (leg ∷ legs) = (refl, no_one_seen legs)

-- `validate` lets every balanced journal through.
pub validate_ok : (input : JournalInput) → IsBalanced input → validate input ≡ ok tt
unfolding validate
validate_ok input v =
    let scan : scan_legs input.legs [] (pos 0) ≡ ok (pos 0) =
      scan_legs_ok input.legs [] (pos 0)
        (to_Fresh input.legs [] v.distinct v.non_zero (no_one_seen input.legs))
      ∙ ap ok (zero_+ℤ _ ∙ v.balanced) in
    let two = v.two_legs in let long = v.long_key in rw scan (ground arith)

-- ------------------------------------------------- the rows and the accounts

All-insert_sorted :
    (P : ℕ → Type 0) (a : ℕ) (ids : List ℕ) → P a → All P ids → All P (insert_sorted a ids)
unfolding insert_sorted
All-insert_sorted P a [] p q = (p, tt)
All-insert_sorted P a (b ∷ ids) p q = elim (Bool-cases (leb a b)) [
  | inl before ↦ rw before (p, q)
  | inr after ↦ rw after (q.0, All-insert_sorted P a ids p q.1)
]

All-lock_order :
    (P : ℕ → Type 0) (legs : List Leg)
    → All (λ leg. P leg.account_id) legs
    → All P (lock_order legs)
unfolding lock_order
All-lock_order P [] h = tt
All-lock_order P (leg ∷ legs) h =
    All-insert_sorted P leg.account_id (lock_order legs) h.0 (All-lock_order P legs h.1)

length-select :
    (ids : List ℕ) (bs : List Balance)
    → All (λ a. find_balance a bs ≢ none) ids
    → length (select_balances ids bs) ≡ length ids
unfolding select_balances
length-select [] bs h = refl
length-select (a ∷ ids) bs h = ground (arith, length-select ids bs h.1, h.0)

lock_balances_ok :
    (ids : List ℕ) (bs : List Balance)
    → All (λ a. find_balance a bs ≢ none) ids
    → lock_balances ids bs ≡ ok (select_balances ids bs)
unfolding lock_balances
lock_balances_ok ids bs h = ground (arith, length-select ids bs h)

-- An account with a row, in the asset of the journal.
abbrev pub HasAsset : AssetCode → List Account → ℕ → Type 0
HasAsset c rs a = (r : Account) × (find_account_row a rs ≡ some r) × (asset_eq r.asset c ≡ true)

check_accounts_ok :
    (ids : List ℕ) (c : AssetCode) (rs : List Account)
    → All (HasAsset c rs) ids
    → check_accounts ids c rs ≡ ok tt
unfolding check_accounts
check_accounts_ok [] c rs h = refl
check_accounts_ok (a ∷ ids) c rs h =
    let (r, found, same) = h.0 in ground (arith, found, same, check_accounts_ok ids c rs h.1)

-- The leg's account has a balance row that the leg does not overdraw.
abbrev pub Affords : List Balance → Leg → Type 0
Affords bs leg =
    (b : Balance) × (find_balance leg.account_id bs ≡ some b)
    × ((is_external b.kind ≡ true) ⊎ (pos 0 ≤ℤ b.balance +ℤ leg.amount))

new_balance_ok :
    (leg : Leg) (locked : List Balance)
    → (h : Affords locked leg) → new_balance leg locked ≡ ok (h.0.balance +ℤ leg.amount)
unfolding new_balance
new_balance_ok leg locked (b, found, enough) = rw (found, new_balance) (ground arith)

compute_updates_ok :
    (legs : List Leg) (locked : List Balance)
    → All (Affords locked) legs
    → (us : List (ℕ × ℤ)) × (compute_updates legs locked ≡ ok us)
unfolding compute_updates
compute_updates_ok [] locked h = ([], refl)
compute_updates_ok (leg ∷ legs) locked h =
    let (us, done) = compute_updates_ok legs locked h.1 in
    (
      (leg.account_id, h.0.0.balance +ℤ leg.amount) ∷ us,
      rw (new_balance_ok leg locked h.0, done, compute_updates) refl,
    )

-- Each leg's account exists in the asset, has a balance row, and can afford the leg.
pub record CanPost (input : JournalInput) (l : Ledger) : Type 0 where
  pub valid : IsBalanced input
  pub accounts : All (λ leg. HasAsset input.asset l.accounts leg.account_id) input.legs
  pub affords : All (Affords l.balances) input.legs

have_rows :
    (legs : List Leg) (bs : List Balance)
    → All (Affords bs) legs
    → All (λ leg. find_balance leg.account_id bs ≢ none) legs
have_rows [] bs h = tt
have_rows (leg ∷ legs) bs h =
    let (b, found, _) = h.0 in ((λ absent. cc (sym absent ∙ found)), have_rows legs bs h.1)

afford_locked :
    (legs : List Leg) (locked bs : List Balance)
    → Agrees legs locked bs
    → All (Affords bs) legs
    → All (Affords locked) legs
afford_locked [] locked bs a h = tt
afford_locked (leg ∷ legs) locked bs a h =
    let (b, found, enough) = h.0 in
    ((b, sym a.0 ∙ found, enough), afford_locked legs locked bs a.1 h.1)

post_new_ok :
    (input : JournalInput) (l : Ledger)
    → CanPost input l
    → (us : List (ℕ × ℤ)) × (post_new input l ≡ insert_journal input us l)
unfolding post_new
post_new_ok input l c =
    let ids : List ℕ = lock_order input.legs in
    let locked = lock_balances_ok ids l.balances (
      All-lock_order (λ a. find_balance a l.balances ≢ none) input.legs
        (have_rows input.legs l.balances c.affords)) in
    let fine =
      check_accounts_ok ids input.asset l.accounts
        (All-lock_order (HasAsset input.asset l.accounts) input.legs c.accounts) in
    let (us, done) = compute_updates_ok input.legs (select_balances ids l.balances) (
      afford_locked input.legs (select_balances ids l.balances) l.balances
        (lock_order-Agrees input.legs l.balances) c.affords) in
    (us, rw (locked, fine, done, post_new) refl)

-- A valid journal over known accounts of its asset that overdraws none of them, but for an external
-- one, is posted, or replayed if its key has been used.
pub post_journal_succeeds :
    (input : JournalInput) (l : Ledger) → CanPost input l → IsOk (post_journal input l)
unfolding post_journal post_in_trx insert_journal
post_journal_succeeds input l c =
    let (us, same) = post_new_ok input l c in
    elim (Option-cases (find_journal input.idempotency_key l.journals)) [
      | inr (j, used) ↦ rw (validate_ok input c.valid, used, post_in_trx) tt
      | inl unused ↦
          rw (validate_ok input c.valid, unused, same, post_in_trx, insert_journal, unused) tt
    ]
