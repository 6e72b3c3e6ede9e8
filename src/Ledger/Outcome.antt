-- ===== src/Ledger/Outcome.antt =====
-- How `postJournal` (backend/src/modules/ledger/ledger.service.ts) ends, and when it goes through.
use quata_trade.Prelude.{
  ℕ, ℤ, ◌≡◌, refl, sym, ◌∙◌, ap, true, false, none, some, Option-cases, Bool-cases, inl, inr, List,
  [], ◌∷◌, All, contains, ◌==◌, arith,
}
use quata_trade.Domain.{AssetCode, is_external, asset_eq}
use quata_trade.Errors.{Error}
use quata_trade.Tx.{Result, ok, err, Result-cases}
use quata_trade.Ledger.{
  Leg, Balance, Account, Journal, JournalInput, JournalResult, Ledger, find_journal, find_balance,
  find_account_row, lock_order, validate, check_accounts, new_balance, compute_updates, post_new,
  post_in_trx, post_journal,
}
use quata_trade.Ledger.Legs.{IsBalanced, validate-IsBalanced}
use quata_trade.Ledger.Rows.{Agrees}
use quata_trade.Ledger.Locks.{lock_balances-select, lock_order-Agrees, lock_order-All}
use quata_trade.Ledger.Post.{Posted, post_new_steps, post_new-Posted}
use quata_trade.Ledger.Success.{HasAsset, Affords, CanPost, validate_ok, post_journal_succeeds}

checked-HasAsset :
    (ids : List ℕ) (c : AssetCode) (rs : List Account) (a : ℕ) {u : Unit {0}}
    → check_accounts ids c rs ≡ ok u
    → contains ids a ≡ true
    → HasAsset c rs a
unfolding check_accounts
checked-HasAsset [] c rs a h k = cc
checked-HasAsset (x ∷ ids) c rs a h k = elim (Option-cases (find_account_row x rs)) [
  | inl absent ↦ cc (rw (absent, check_accounts) at h)
  | inr (r, found) ↦ elim (Bool-cases (asset_eq r.asset c)) [
    | inr other ↦ cc (rw (found, other, check_accounts) at h)
    | inl same ↦ elim (Bool-cases (x == a)) [
      | inl here ↦ (
        r,
        ap (λ n. find_account_row n rs) (sym (let e : x ≡ a = ground arith in e)) ∙ found,
        same,
      )
      | inr later ↦
          checked-HasAsset ids c rs a (rw (found, same, check_accounts) at h) (rw later at k)
    ]
  ]
]

legs-HasAsset :
    (ids : List ℕ) (legs : List Leg) (c : AssetCode) (rs : List Account) {u : Unit {0}}
    → check_accounts ids c rs ≡ ok u
    → All (λ leg. contains ids leg.account_id ≡ true) legs
    → All (λ leg. HasAsset c rs leg.account_id) legs
legs-HasAsset ids [] c rs h k = tt
legs-HasAsset ids (leg ∷ legs) c rs h k =
    (checked-HasAsset ids c rs leg.account_id h k.0, legs-HasAsset ids legs c rs h k.1)

new_balance-Affords :
    (leg : Leg) (locked : List Balance) {v : ℤ} → new_balance leg locked ≡ ok v → Affords locked leg
unfolding new_balance
new_balance-Affords leg locked h = elim (Option-cases (find_balance leg.account_id locked)) [
  | inl absent ↦ cc (rw (absent, new_balance) at h)
  | inr (row, found) ↦ elim (Bool-cases (is_external row.kind)) [
    | inl outside ↦ (row, found, inl outside)
    | inr inside ↦ (row, found, inr (let k = rw (found, inside, new_balance) at h in ground arith))
  ]
]

updates-Affords :
    (legs : List Leg) (locked : List Balance) {us : List (ℕ × ℤ)}
    → compute_updates legs locked ≡ ok us
    → All (Affords locked) legs
unfolding compute_updates
updates-Affords [] locked h = tt
updates-Affords (leg ∷ legs) locked h = elim (Result-cases (new_balance leg locked)) [
  | inr (e, bad) ↦ cc (rw (bad, compute_updates) at h)
  | inl (v, good) ↦ elim (Result-cases (compute_updates legs locked)) [
    | inr (e, bad) ↦ cc (rw (good, bad, compute_updates) at h)
    | inl (us, rest) ↦ (new_balance-Affords leg locked good, updates-Affords legs locked rest)
  ]
]

unlocked-Affords :
    (legs : List Leg) (locked bs : List Balance)
    → Agrees legs locked bs
    → All (Affords locked) legs
    → All (Affords bs) legs
unlocked-Affords [] locked bs a h = tt
unlocked-Affords (leg ∷ legs) locked bs a h =
    let (b, found, enough) = h.0 in
    ((b, a.0 ∙ found, enough), unlocked-Affords legs locked bs a.1 h.1)

post_new-CanPost :
    (input : JournalInput) (l : Ledger) {r : JournalResult} {l' : Ledger}
    → IsBalanced input
    → post_new input l ≡ ok (r, l')
    → CanPost input l
post_new-CanPost input l v h =
    let (locked, us, hl, hc, hu, hi) = post_new_steps input l h in
    let agrees : Agrees input.legs locked l.balances =
      rw (lock_balances-select (lock_order input.legs) l.balances hl)
        (lock_order-Agrees input.legs l.balances) in
    record {
      valid = v;
      accounts =
          legs-HasAsset (lock_order input.legs) input.legs input.asset l.accounts hc
            (lock_order-All input.legs);
      affords =
          unlocked-Affords input.legs locked l.balances agrees
            (updates-Affords input.legs locked hu);
    }

-- The four ways in which a posting ends.
pub data Ends (input : JournalInput) (l : Ledger) : Type 0 where
  invalid : (e : Error) → post_journal input l ≡ err e → (IsBalanced input → ⊥) → Ends input l
  replayed :
      (j : Journal)
      → IsBalanced input
      → find_journal input.idempotency_key l.journals ≡ some j
      → post_journal input l ≡ ok (record { journal_id = j.id; replayed = true }, l)
      → Ends input l
  recorded :
      (l' : Ledger)
      → CanPost input l
      → post_journal input l ≡ ok (record { journal_id = l.next_id; replayed = false }, l')
      → Posted input l l'
      → Ends input l
  impossible :
      (e : Error)
      → IsBalanced input
      → find_journal input.idempotency_key l.journals ≡ none
      → post_journal input l ≡ err e
      → (CanPost input l → ⊥)
      → Ends input l

Failed :
    (input : JournalInput) (l : Ledger) (e : Error)
    → post_journal input l ≡ err e
    → CanPost input l
    → ⊥
Failed input l e h c = rw h at (post_journal_succeeds input l c)

fresh-Ends :
    (input : JournalInput) (l : Ledger) (r : Result (JournalResult × Ledger))
    → IsBalanced input
    → find_journal input.idempotency_key l.journals ≡ none
    → post_new input l ≡ r
    → post_journal input l ≡ r
    → Ends input l
fresh-Ends input l (err e) v unused h whole = impossible e v unused whole (Failed input l e whole)
fresh-Ends input l (ok (r, l')) v unused h whole =
    let (is, posted) = post_new-Posted input l v unused h in
    recorded l' (post_new-CanPost input l v h) (whole ∙ ap (λ q. ok (q, l')) is) posted

-- A posting ends in one of four ways. A journal that is not valid fails. A valid one under a used
-- key answers with the id of the journal that has the key, marked as a replay, and writes nothing.
-- Under a fresh key it is recorded with its entries under the next id, and its legs are added to
-- the balances, each once, where every leg's account is known, of the asset, and not overdrawn
-- unless it is an external one; where one is not, it fails.
pub post_journal-Ends : (input : JournalInput) (l : Ledger) → Ends input l
unfolding post_journal post_in_trx
post_journal-Ends input l = elim (Result-cases (validate input)) [
  | inr (e, bad) ↦ invalid e (rw (bad, post_journal) refl) (λ v. cc (sym bad ∙ validate_ok input v))
  | inl (u, good) ↦
      let v : IsBalanced input = validate-IsBalanced input good in
      elim (Option-cases (find_journal input.idempotency_key l.journals)) [
        | inr (j, used) ↦ replayed j v used (rw (good, used, post_journal, post_in_trx) refl)
        | inl unused ↦
            fresh-Ends input l (post_new input l) v unused refl
              (rw (good, unused, post_journal, post_in_trx) refl)
      ]
]
