-- ===== src/Deposits/Balances.antt =====
-- Whatever the jobs and the admins do, the balances are as the table of deposits shows them
-- (backend/src/modules/deposits, backend/src/modules/admin/held-deposits.service.ts).
mod Passed
mod Filed
use quata_trade.Prelude.{
  ℕ, ◌-◌, ◌||◌, ℤ, ◌+ℤ◌, zero_+ℤ, sym, ◌≡◌, refl, ap, ◌∙◌, Bool, true, false, not, ◌&&◌, Option,
  none, some, String, List, [], ◌∷◌, ltb, arith, Bool-cases, inl, inr, if◌then◌else◌,
}
use quata_trade.Errors.{PgCode, held_deposit_not_found, held_deposit_already_resolved}
use quata_trade.Tx.{Result, ok, err, throw_if, ◌>>◌}
use quata_trade.Tx.Preserves.{Preserves, with_money_transaction-keeps, execute-keeps}
use quata_trade.Tx.Ensures.{Ensures, Ensures-Preserves, Ensures-guard}
use quata_trade.Ledger.{find_journal}
use quata_trade.Ledger.Holdings.{Ref, IsIndexed, holding}
use quata_trade.Db.{Db, Deposit, HoldResolution}
use quata_trade.Tables.{enqueue_outbox, audit}
use quata_trade.Deposits.Rows.{
  is_pending, is_credited, find_deposit, write_deposit, has_transfer, is_transfer,
}
use quata_trade.Deposits.{
  World, Terms, deposit_key, credit, credit_found, read_terms, with_terms, is_final,
}
use quata_trade.Deposits.Passes.{
  Breaker, confirm_tick, confirm_once, confirm_each, confirm_at, count_depth, counted_row,
  pending_deposits, to_int_confirmations, orphan_sweep, sweep_each, orphan, orphaned_row,
  has_failed,
}
use quata_trade.Deposits.Held.{
  decide_hold, decide_hold_tx, decide_found, write_decision, decided_row, is_undecided,
}
use quata_trade.Deposits.Scan.{
  ScanConfig, WatchedAddress, Transfer, scan_tick, scan_once, scan_each, scan_address, record_all,
  record_transfer, insert_transfer, fill_block, update_transfer, mined_row, has_block, is_wanted,
  dust_floor_of,
}
use quata_trade.Deposits.Shown.{
  Shown, Quiet, SameMoney, same_money, Quiet-self, update_deposit-Quiet, Shown-Quiet, deposit_moves,
}
use quata_trade.Deposits.Gates.{credit_tx-Shown}
use quata_trade.Deposits.Calls.{
  Jobs, DepositCall, scan, confirm, sweep, decide, run_deposit, run_deposits,
}
use quata_trade.Deposits.Balances.Passed.{confirm_once-Shown, sweep_each-Shown}
use quata_trade.Deposits.Balances.Filed.{decide_hold-Shown, scan_each-Shown}

module _ (base : Ref → ℤ) where
  run_deposit-Shown :
      (call : DepositCall) (s : Jobs) → Shown base s.db → Shown base (run_deposit call s).db
  unfolding run_deposit scan_tick scan_once confirm_tick orphan_sweep
  run_deposit-Shown (scan cfg now policy_min to addresses) s h =
      elim (Bool-cases (ltb now s.scanner.paused_until)) [
        | inl paused ↦ rw paused h
        | inr due ↦
            rw due
              (scan_each-Shown base cfg now (dust_floor_of cfg policy_min) to addresses (0, s.db) h)
      ]
  run_deposit-Shown (confirm aborts w required height) s h =
      elim (Bool-cases (ltb w.now s.confirmer.paused_until)) [
        | inl paused ↦ rw paused h
        | inr due ↦ rw due (confirm_once-Shown base aborts w required height s.confirmer s.db h)
      ]
  run_deposit-Shown (sweep w) s h = sweep_each-Shown base w _ (false, s.db) h
  run_deposit-Shown (decide now id admin_id resolution reason) s h =
      decide_hold-Shown base now id admin_id resolution reason s.db h

  run_deposits-Shown :
      (calls : List DepositCall) (s : Jobs) → Shown base s.db → Shown base (run_deposits calls s).db
  unfolding run_deposits
  run_deposits-Shown [] s h = h
  run_deposits-Shown (call ∷ calls) s h =
      run_deposits-Shown calls (run_deposit call s) (run_deposit-Shown call s h)

-- From an empty table of deposits, in a ledger that has no journal under a deposit's key, after any
-- sequence of scans, confirmation passes, sweeps and decisions of admins, failed and retried ones
-- among them: every account holds what it held before and what the rows that were ever credited
-- show, each once: the gross amount out of the external account, the amount less the fee to the
-- user, the fee to the treasury.
pub balances_show_deposits :
    (calls : List DepositCall) (s : Jobs) (t : Ref)
    → s.db.deposits ≡ []
    → IsIndexed s.db.ledger
    → ((tx log : ℕ) → find_journal (deposit_key tx log) s.db.ledger.journals ≡ none)
    → holding (run_deposits calls s).db.ledger t
      ≡ deposit_moves (run_deposits calls s).db.deposits t +ℤ holding s.db.ledger t
balances_show_deposits calls s t empty indexed unused =
    let start : Shown (holding s.db.ledger) s.db = record {
      indexed = indexed;
      unique = rw empty tt;
      waiting = rw empty tt;
      free = λ tx log p. unused tx log;
      shows = λ r. rw empty (sym (zero_+ℤ (holding s.db.ledger r)));
    } in
    (run_deposits-Shown (holding s.db.ledger) calls s start).shows t
