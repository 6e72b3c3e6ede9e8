-- ===== src/Deposits/Rejected.antt =====
-- A deposit whose hold an admin has rejected is never credited
-- (backend/src/modules/admin/held-deposits.service.ts,
-- backend/src/modules/deposits/deposit-confirmation.service.ts).
mod Passed
mod Filed
use quata_trade.Prelude.{
  ℕ, ◌-◌, ◌≡◌, ◌≢◌, refl, sym, ◌∙◌, Bool, true, false, not, ◌&&◌, ◌||◌, Option, none, some, String,
  List, [], ◌∷◌, ltb, leb, ◌==◌, All, arith, Bool-cases, inl, inr, filter, if◌then◌else◌,
}
use quata_trade.Errors.{PgCode, held_deposit_not_found, held_deposit_already_resolved}
use quata_trade.Tx.{throw_if, ◌>>◌}
use quata_trade.Tx.Preserves.{Preserves, Preserves-guard, execute-keeps}
use quata_trade.Db.{Db, Deposit, HoldResolution, rejected_hold}
use quata_trade.Tables.{enqueue_outbox, audit}
use quata_trade.Deposits.Rows.{
  is_pending, is_credited, find_deposit, update_deposit, write_deposit, is_transfer, has_transfer,
}
use quata_trade.Deposits.{World}
use quata_trade.Deposits.Passes.{
  Breaker, confirm_tick, confirm_once, confirm_each, confirm_at, count_depth, counted_row,
  is_unheld, pending_deposits, oldest_first, insert_oldest, to_int_confirmations, orphan_sweep,
  sweep_each, orphan, orphaned_row, has_failed,
}
use quata_trade.Deposits.Held.{
  decide_hold, decide_hold_tx, decide_found, write_decision, decided_row, is_undecided,
}
use quata_trade.Deposits.Scan.{
  ScanConfig, WatchedAddress, Transfer, scan_tick, scan_once, scan_each, scan_address, record_all,
  record_transfer, insert_transfer, fill_block, update_transfer, mined_row, has_block, is_wanted,
  dust_floor_of,
}
use quata_trade.Deposits.Calls.{
  Jobs, DepositCall, scan, confirm, sweep, decide, run_deposit, run_deposits,
}
use quata_trade.Deposits.Paying.{some_inj}
use quata_trade.Deposits.Barred.{IsBarred, Barred, rows-update, credit-Barred}
use quata_trade.Deposits.Rejected.Passed.{confirm_once-Barred, sweep_each-Barred}
use quata_trade.Deposits.Rejected.Filed.{decide_hold-Barred, scan_each-Barred}

module _ (id : ℕ) where
  run_deposit-Barred :
      (call : DepositCall) (s : Jobs) → Barred id s.db → Barred id (run_deposit call s).db
  unfolding run_deposit scan_tick scan_once confirm_tick orphan_sweep
  run_deposit-Barred (scan cfg now policy_min to addresses) s h =
      elim (Bool-cases (ltb now s.scanner.paused_until)) [
        | inl paused ↦ rw paused h
        | inr due ↦
            rw due
              (scan_each-Barred id cfg now (dust_floor_of cfg policy_min) to addresses (0, s.db) h)
      ]
  run_deposit-Barred (confirm aborts w required height) s h =
      elim (Bool-cases (ltb w.now s.confirmer.paused_until)) [
        | inl paused ↦ rw paused h
        | inr due ↦ rw due (confirm_once-Barred id aborts w required height s.confirmer s.db h)
      ]
  run_deposit-Barred (sweep w) s h = sweep_each-Barred id w _ (false, s.db) h
  run_deposit-Barred (decide now other admin_id resolution reason) s h =
      decide_hold-Barred id now other admin_id resolution reason s.db h

  run_deposits-Barred :
      (calls : List DepositCall) (s : Jobs) → Barred id s.db → Barred id (run_deposits calls s).db
  unfolding run_deposits
  run_deposits-Barred [] s h = h
  run_deposits-Barred (call ∷ calls) s h =
      run_deposits-Barred calls (run_deposit call s) (run_deposit-Barred call s h)

IsBarred-at :
    (id : ℕ) (ds : List Deposit) (d : Deposit)
    → All (λ e. e.id ≡ id → IsBarred e) ds
    → find_deposit id ds ≡ some d
    → IsBarred d
unfolding find_deposit
IsBarred-at id [] d h found = cc
IsBarred-at id (e ∷ es) d h found = elim (Bool-cases (e.id == id)) [
  | inl here ↦ let same : e ≡ d = some_inj (rw here at found) in rw (sym same) (h.0 (ground arith))
  | inr other ↦ IsBarred-at id es d h.1 (rw other at found)
]

-- A deposit that is held, not credited, and rejected by an admin, under an id that has been given
-- out: whatever scans, confirmation passes, sweeps and decisions follow, it is still rejected, it is
-- not credited, and no journal stands against it.
pub rejected_deposit_stays_uncredited :
    (calls : List DepositCall) (id : ℕ) (s : Jobs) (d : Deposit)
    → Barred id s.db
    → find_deposit id (run_deposits calls s).db.deposits ≡ some d
    → (d.hold_resolution ≡ some rejected_hold)
      × (is_credited d.status ≡ false)
      × (d.credited_journal_id ≡ none)
rejected_deposit_stays_uncredited calls id s d h found =
    let b : IsBarred d =
      IsBarred-at id (run_deposits calls s).db.deposits d (run_deposits-Barred id calls s h).rows
        found in
    (b.rejected, b.uncredited, no_journal d.credited_journal_id b.unpaid)
  where
    no_journal : (j : Option ℕ) → elim j [ none ↦ false | some _ ↦ true ] ≡ false → j ≡ none
    no_journal none e = refl
    no_journal (some j) e = cc
