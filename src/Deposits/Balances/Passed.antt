-- ===== src/Deposits/Balances/Passed.antt =====
-- The confirmation passes and the sweep keep the balances as the table of deposits shows them
-- (backend/src/modules/deposits/deposit-confirmation.service.ts).
use quata_trade.Prelude.{
  ℕ, ◌-◌, ℤ, refl, Bool, true, false, not, ◌&&◌, Option, none, some, List, [], ◌∷◌, ltb, Bool-cases,
  inl, inr, if◌then◌else◌,
}
use quata_trade.Errors.{PgCode}
use quata_trade.Tx.{Result, ok, err}
use quata_trade.Tx.Preserves.{with_money_transaction-keeps}
use quata_trade.Tx.Ensures.{Ensures-Preserves}
use quata_trade.Ledger.Holdings.{Ref}
use quata_trade.Db.{Db, Deposit}
use quata_trade.Deposits.Rows.{is_pending, is_credited, find_deposit}
use quata_trade.Deposits.{World, Terms, credit, credit_found, read_terms, with_terms, is_final}
use quata_trade.Deposits.Passes.{
  Breaker, confirm_once, confirm_each, confirm_at, count_depth, counted_row, pending_deposits,
  to_int_confirmations, sweep_each, orphan, orphaned_row, has_failed,
}
use quata_trade.Deposits.Shown.{Shown, SameMoney, same_money, update_deposit-Quiet, Shown-Quiet}
use quata_trade.Deposits.Gates.{credit_tx-Shown}

pub quiet_row : (b : Bool) (d e : Deposit) → SameMoney d e → SameMoney d (if b then e else d)
quiet_row true d e h = h
quiet_row false d e h = same_money d

counted-Quiet :
    (now confirmations : ℕ) (d : Deposit) → SameMoney d (counted_row now confirmations d)
counted-Quiet now confirmations d = elim (Bool-cases (is_pending d.status)) [
  | inl p ↦
      rw p
        (record { tx = refl; log = refl; is_paid_same = refl; moves = λ t. refl; pending = λ h. p })
  | inr other ↦ rw other (same_money d)
]

module _ (base : Ref → ℤ) where
  credit-Shown :
      (aborts : ℕ → Option PgCode) (w : World) (id confirmations required : ℕ) (db : Db)
      → Shown base db
      → Shown base (credit aborts w id confirmations required db).1
  unfolding credit
  credit-Shown aborts w id confirmations required db h = go (find_deposit id db.deposits)
    where
      priced : (r : Result Terms) → Shown base (with_terms aborts id r db).1
      priced (err e) = unfold with_terms in h
      priced (ok t) =
          unfold with_terms in
          with_money_transaction-keeps aborts _ db (Ensures-Preserves (credit_tx-Shown base id t)) h

      go :
          (found : Option Deposit)
          → Shown base (credit_found aborts w id confirmations required found db).1
      go none = unfold credit_found in h
      go (some pre) =
          unfold credit_found in
          elim (Bool-cases
            (not (is_pending pre.status && is_final required (w.status_of pre.tx_hash)))) [
              | inl waits ↦ rw waits h
              | inr due ↦ rw due (priced (read_terms w confirmations pre db.users))
            ]

  confirm_at-Shown :
      (aborts : ℕ → ℕ → Option PgCode) (w : World) (required height : ℕ) (d : Deposit)
      (block : Option ℕ) (db : Db)
      → Shown base db
      → Shown base (confirm_at aborts w required height d block db)
  unfolding confirm_at count_depth
  confirm_at-Shown aborts w required height d none db h = h
  confirm_at-Shown aborts w required height d (some block) db h =
      let depth : ℕ = to_int_confirmations (height - block) in
      elim (Bool-cases (ltb height block)) [
        | inl behind ↦ rw behind h
        | inr reached ↦ elim (Bool-cases (ltb depth required)) [
          | inl shallow ↦
              rw (reached, shallow)
                (Shown-Quiet db (count_depth w.now d.id depth db) h refl (
                  update_deposit-Quiet d.id (counted_row w.now depth) db.deposits
                    (counted-Quiet w.now depth)))
          | inr deep ↦ rw (reached, deep) (credit-Shown (aborts d.id) w d.id depth required db h)
        ]
      ]

  confirm_each-Shown :
      (aborts : ℕ → ℕ → Option PgCode) (w : World) (required height : ℕ) (ds : List Deposit)
      (db : Db)
      → Shown base db
      → Shown base (confirm_each aborts w required height ds db)
  unfolding confirm_each
  confirm_each-Shown aborts w required height [] db h = h
  confirm_each-Shown aborts w required height (d ∷ ds) db h =
      confirm_each-Shown aborts w required height ds _
        (confirm_at-Shown aborts w required height d d.block_number db h)

  pub confirm_once-Shown :
      (aborts : ℕ → ℕ → Option PgCode) (w : World) (required : ℕ) (height : Option ℕ) (b : Breaker)
      (db : Db)
      → Shown base db
      → Shown base (confirm_once aborts w required height (b, db)).1
  unfolding confirm_once
  confirm_once-Shown aborts w required none b db h = h
  confirm_once-Shown aborts w required (some height) b db h =
      confirm_each-Shown aborts w required height (pending_deposits db.deposits) db h

  orphan-Shown : (now : ℕ) (d : Deposit) (db : Db) → Shown base db → Shown base (orphan now d db)
  unfolding orphan
  orphan-Shown now d db h = Shown-Quiet db _ h refl (
      update_deposit-Quiet d.id (orphaned_row now) db.deposits (λ e.
        quiet_row (is_credited e.status) e _ (record {
          tx = refl;
          log = refl;
          is_paid_same = refl;
          moves = λ t. refl;
          pending = λ p. cc;
        })))

  either_Shown :
      (b : Bool) (x y : Bool × Db)
      → Shown base x.1
      → Shown base y.1
      → Shown base (if b then x else y).1
  either_Shown true x y h k = h
  either_Shown false x y h k = k

  pub sweep_each-Shown :
      (w : World) (ds : List Deposit) (r : Bool × Db)
      → Shown base r.1
      → Shown base (sweep_each w ds r).1
  unfolding sweep_each
  sweep_each-Shown w [] (paused, db) h = h
  sweep_each-Shown w (d ∷ ds) (paused, db) h = sweep_each-Shown w ds _ (
      either_Shown (has_failed (w.status_of d.tx_hash)) (true, orphan w.now d db) (paused, db)
        (orphan-Shown w.now d db h) h)
