-- ===== src/Deposits/Released.antt =====
-- A deposit that an admin has released is credited (backend/src/modules/admin/held-deposits.service.ts,
-- backend/src/modules/deposits/deposit-confirmation.service.ts).
use quata_trade.Prelude.{
  ℕ, ◌+◌, ◌≤◌, ◌<◌, ◌≡◌, refl, ap, ◌∙◌, true, Option, none, some, List, [], ◌∷◌, ◌==◌, Bool-cases,
  inl, inr,
}
use quata_trade.Errors.{PgCode}
use quata_trade.Tx.{ok, execute}
use quata_trade.Tx.Guards.{bind_runs}
use quata_trade.Tx.Retry.{Aborted, with_money_transaction-eq-execute}
use quata_trade.Ledger.{JournalResult, Ledger}
use quata_trade.Ledger.Holdings.{IsIndexed}
use quata_trade.Ledger.Invariant.{IsConsistent}
use quata_trade.Ledger.Outside.{KnowsOutside}
use quata_trade.Db.{Db, Deposit}
use quata_trade.Tables.{enqueue_outbox, audit}
use quata_trade.Deposits.Rows.{is_pending, find_deposit, update_deposit, write_deposit, find_twin}
use quata_trade.Deposits.{
  World, Terms, credited_row, deposit_fee, record_credit, tainted, policy_gate, after_policy,
  after_screening, after_twin, credit_row, credit_tx, is_released, read_terms, with_terms, is_final,
  credit_found, credit,
}
use quata_trade.Deposits.Paying.{found_id, some_inj}
use quata_trade.Deposits.Posting.{post_credit_runs}

-- A deposit that waits, was released, has no credited twin, and has a fee below its amount.
pub record IsReleased (id : ℕ) (t : Terms) (fee : ℕ) (d : Deposit) (db : Db) : Type 0 where
  pub found : find_deposit id db.deposits ≡ some d
  pub pending : is_pending d.status ≡ true
  pub released : is_released d.hold_resolution ≡ true
  pub alone : find_twin d db.deposits ≡ none
  pub charged : deposit_fee t d ≡ ok fee
  pub below : fee < d.amount

find-update :
    (id : ℕ) (set : Deposit → Deposit) (ds : List Deposit) {d : Deposit}
    → ((e : Deposit) → (set e).id ≡ e.id)
    → find_deposit id ds ≡ some d
    → find_deposit id (update_deposit id set ds) ≡ some (set d)
unfolding find_deposit update_deposit
find-update id set [] keeps h = cc
find-update id set (e ∷ es) {d} keeps h = elim (Bool-cases (e.id == id)) [
  | inl here ↦
      let same : e ≡ d = some_inj (rw here at h) in
      let still : (set e).id == id ≡ true = ap (λ n. n == id) (keeps e) ∙ here in
      rw here (rw still (ap (λ (q : Deposit). some (set q)) same))
  | inr other ↦ rw other (rw other (find-update id set es keeps (rw other at h)))
]

-- The row is credited, with the fee.
abbrev pub IsCredited : ℕ → Terms → ℕ → Deposit → Db → Type 0
IsCredited id t fee d db =
    (journal : ℕ) × (find_deposit id db.deposits ≡ some (credited_row t fee journal d))

module _ (t : Terms) (fee id : ℕ) (d : Deposit) (db : Db) (h : IsReleased id t fee d db) where
  recorded :
      (r : JournalResult) (l : Ledger)
      → (db' : Db) × (record_credit t d fee r (record db { ledger = l }) ≡ ok (tt, db'))
        × IsCredited id t fee d db'
  unfolding record_credit write_deposit enqueue_outbox audit
  recorded r l = (
    _,
    refl,
    (
      r.journal_id,
      ap (λ n. find_deposit id (update_deposit n (credited_row t fee r.journal_id) db.deposits))
            (found_id id db.deposits d h.found)
          ∙ find-update id (credited_row t fee r.journal_id) db.deposits (λ e. refl) h.found,
    ),
  )

  not_tainted : tainted t d ≡ none
  unfolding tainted
  not_tainted = rw h.released refl

  passes : policy_gate t d db ≡ ok (none, db)
  unfolding policy_gate
  passes = rw h.released refl

  credit_tx_runs :
      IsIndexed db.ledger
      → IsConsistent db.ledger
      → KnowsOutside d.asset db.ledger
      → (db' : Db) × (credit_tx id t db ≡ ok (tt, db')) × IsCredited id t fee d db'
  unfolding credit_tx credit_row after_twin after_screening after_policy
  credit_tx_runs x c knows =
      let (r, l, posts) = post_credit_runs t d fee h.below db x c knows in
      let (db', records, done) = recorded r l in
      (
        db',
        rw h.found (
            rw h.pending (
              rw h.alone (
                rw not_tainted (
                  bind_runs (policy_gate t d) (after_policy t d) db passes
                  ∙ rw h.charged (posts ∙ records))))),
        done,
      )

-- On a consistent ledger, the crediting of a deposit that an admin has released goes through,
-- whatever the screening and the policy say of it: where its transaction is still on the chain and
-- as deep as required, the settings can be read, no twin of it has been credited, its fee is below
-- its amount, and the database aborts at most two attempts. The row is then credited, with the fee.
pub released_deposit_goes_through :
    (aborts : ℕ → Option PgCode) (n : ℕ) (w : World) (id confirmations required fee : ℕ) (t : Terms)
    (d : Deposit) (db : Db)
    → n ≤ 2
    → Aborted aborts 1 n
    → aborts (1 + n) ≡ none
    → IsIndexed db.ledger
    → IsConsistent db.ledger
    → KnowsOutside d.asset db.ledger
    → IsReleased id t fee d db
    → is_final required (w.status_of d.tx_hash) ≡ true
    → read_terms w confirmations d db.users ≡ ok t
    → (db' : Db) × (credit aborts w id confirmations required db ≡ (ok tt, db'))
      × IsCredited id t fee d db'
unfolding credit credit_found with_terms execute
released_deposit_goes_through aborts n w id confirmations required fee t d db few aborted goes x c
      knows h final terms =
    let (db', runs, done) = credit_tx_runs t fee id d db h x c knows in
    (
      db',
      rw (h.found, credit_found)
          (rw (h.pending, final)
            (rw (terms, with_terms)
              (with_money_transaction-eq-execute aborts (credit_tx id t) n db few aborted goes
                  (rw runs tt)
                ∙ rw (runs, execute) refl))),
      done,
    )
