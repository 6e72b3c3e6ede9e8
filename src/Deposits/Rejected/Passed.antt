-- ===== src/Deposits/Rejected/Passed.antt =====
-- The confirmation passes and the sweep leave a rejected deposit alone
-- (backend/src/modules/deposits/deposit-confirmation.service.ts).
use quata_trade.Prelude.{
  ℕ, ◌-◌, ◌≡◌, ◌≢◌, refl, sym, ◌∙◌, Bool, true, false, Option, none, some, List, [], ◌∷◌, ltb, leb,
  All, arith, Bool-cases, inl, inr, filter, if◌then◌else◌,
}
use quata_trade.Errors.{PgCode}
use quata_trade.Db.{Db, Deposit}
use quata_trade.Deposits.Rows.{is_pending, update_deposit}
use quata_trade.Deposits.{World}
use quata_trade.Deposits.Passes.{
  Breaker, confirm_once, confirm_each, confirm_at, count_depth, counted_row, is_unheld,
  pending_deposits, oldest_first, insert_oldest, to_int_confirmations, sweep_each, orphan,
  orphaned_row, has_failed,
}
use quata_trade.Deposits.Barred.{IsBarred, Barred, rows-update, credit-Barred}

-- ---------------------------------------------------------------- what a pass takes up

IsBarred-closed : (d : Deposit) → IsBarred d → is_unheld d ≡ false
IsBarred-closed d b = let held = b.held in ground arith

open_others :
    (id : ℕ) (ds : List Deposit)
    → All (λ d. d.id ≡ id → IsBarred d) ds
    → All (λ d. d.id ≢ id) (filter is_unheld ds)
open_others id [] h = tt
open_others id (d ∷ ds) h = elim (Bool-cases (is_unheld d)) [
  | inl taken ↦ rw taken (λ e. cc (sym taken ∙ IsBarred-closed d (h.0 e)), open_others id ds h.1)
  | inr left ↦ rw left (open_others id ds h.1)
]

insert_others :
    (id : ℕ) (d : Deposit) (ds : List Deposit)
    → d.id ≢ id
    → All (λ e. e.id ≢ id) ds
    → All (λ e. e.id ≢ id) (insert_oldest d ds)
unfolding insert_oldest
insert_others id d [] n h = (n, tt)
insert_others id d (e ∷ es) n h = elim (Bool-cases (leb d.created_at e.created_at)) [
  | inl first ↦ rw first (n, h)
  | inr later ↦ rw later (h.0, insert_others id d es n h.1)
]

oldest_others :
    (id : ℕ) (ds : List Deposit) → All (λ e. e.id ≢ id) ds → All (λ e. e.id ≢ id) (oldest_first ds)
unfolding oldest_first
oldest_others id [] h = tt
oldest_others id (d ∷ ds) h = insert_others id d (oldest_first ds) h.0 (oldest_others id ds h.1)

module _ (id : ℕ) where
  -- ---------------------------------------------------------------- writes that keep barred rows

  pub update-Barred :
      (other : ℕ) (set : Deposit → Deposit) (db db' : Db)
      → db'.deposits ≡ update_deposit other set db.deposits
      → db'.next_id ≡ db.next_id
      → ((d : Deposit) → (set d).id ≡ d.id)
      → ((d : Deposit) → IsBarred d → IsBarred (set d))
      → Barred id db
      → Barred id db'
  update-Barred other set db db' same next keeps kept h = record {
    older = rw next h.older;
    rows = rw same (
        rows-update id other set db.deposits (λ d e barred is. kept d (barred (sym (keeps d) ∙ is)))
          h.rows);
  }

  confirm_at-Barred :
      (aborts : ℕ → ℕ → Option PgCode) (w : World) (required height : ℕ) (d : Deposit)
      (block : Option ℕ) (db : Db)
      → d.id ≢ id
      → Barred id db
      → Barred id (confirm_at aborts w required height d block db)
  unfolding confirm_at count_depth
  confirm_at-Barred aborts w required height d none db ne h = h
  confirm_at-Barred aborts w required height d (some block) db ne h =
      let depth : ℕ = to_int_confirmations (height - block) in
      elim (Bool-cases (ltb height block)) [
        | inl behind ↦ rw behind h
        | inr reached ↦ elim (Bool-cases (ltb depth required)) [
          | inl shallow ↦
              rw (reached, shallow)
                (record {
                  older = h.older;
                  rows =
                      rows-update id d.id (counted_row w.now depth) db.deposits
                        (λ e at_d barred is. barred_counted e at_d is) h.rows;
                })
          | inr deep ↦
              rw (reached, deep)
                (credit-Barred id (aborts d.id) w d.id depth required db (λ e. ne (sym e)) h)
        ]
      ]
    where
      barred_counted :
          (e : Deposit)
          → e.id ≡ d.id
          → (counted_row w.now (to_int_confirmations (height - block)) e).id ≡ id
          → IsBarred (counted_row w.now (to_int_confirmations (height - block)) e)
      barred_counted e at_d is = elim (Bool-cases (is_pending e.status)) [
        | inl p ↦ absurd (ne (sym at_d ∙ rw p at is))
        | inr p ↦ absurd (ne (sym at_d ∙ rw p at is))
      ]

  confirm_each-Barred :
      (aborts : ℕ → ℕ → Option PgCode) (w : World) (required height : ℕ) (ds : List Deposit)
      (db : Db)
      → All (λ d. d.id ≢ id) ds
      → Barred id db
      → Barred id (confirm_each aborts w required height ds db)
  unfolding confirm_each
  confirm_each-Barred aborts w required height [] db ne h = h
  confirm_each-Barred aborts w required height (d ∷ ds) db ne h =
      confirm_each-Barred aborts w required height ds _ ne.1
        (confirm_at-Barred aborts w required height d d.block_number db ne.0 h)

  pub confirm_once-Barred :
      (aborts : ℕ → ℕ → Option PgCode) (w : World) (required : ℕ) (height : Option ℕ) (b : Breaker)
      (db : Db)
      → Barred id db
      → Barred id (confirm_once aborts w required height (b, db)).1
  unfolding confirm_once pending_deposits
  confirm_once-Barred aborts w required none b db h = h
  confirm_once-Barred aborts w required (some height) b db h =
      confirm_each-Barred aborts w required height (pending_deposits db.deposits) db
        (oldest_others id (filter is_unheld db.deposits) (open_others id db.deposits h.rows)) h

  orphan-Barred : (now : ℕ) (d : Deposit) (db : Db) → Barred id db → Barred id (orphan now d db)
  unfolding orphan
  orphan-Barred now d db =
      update-Barred d.id (orphaned_row now) db _ refl refl (λ e. ground arith)
        (λ e b. rw b.uncredited b)

  either_Barred :
      (b : Bool) (x y : Bool × Db)
      → Barred id x.1
      → Barred id y.1
      → Barred id (if b then x else y).1
  either_Barred true x y h k = h
  either_Barred false x y h k = k

  pub sweep_each-Barred :
      (w : World) (ds : List Deposit) (r : Bool × Db)
      → Barred id r.1
      → Barred id (sweep_each w ds r).1
  unfolding sweep_each
  sweep_each-Barred w [] (paused, db) h = h
  sweep_each-Barred w (d ∷ ds) (paused, db) h = sweep_each-Barred w ds _ (
      either_Barred (has_failed (w.status_of d.tx_hash)) (true, orphan w.now d db) (paused, db)
        (orphan-Barred w.now d db h) h)
