-- ===== src/Deposits/Calls.antt =====
-- The life of deposits as the jobs and the admins drive it (backend/src/modules/deposits,
-- backend/src/modules/admin/held-deposits.service.ts): scans, confirmation passes, sweeps and
-- decisions in any order.
use quata_trade.Prelude.{ℕ, Option, String, List, [], ◌∷◌}
use quata_trade.Errors.{PgCode}
use quata_trade.Db.{Db, HoldResolution}
use quata_trade.Deposits.{World}
use quata_trade.Deposits.Passes.{Breaker, confirm_tick, orphan_sweep}
use quata_trade.Deposits.Held.{decide_hold}
use quata_trade.Deposits.Scan.{ScanConfig, WatchedAddress, Transfer, scan_tick}

-- What the two jobs keep in memory, and the tables.
pub record Jobs : Type 0 where
  pub scanner : Breaker
  pub confirmer : Breaker
  pub db : Db

pub data DepositCall : Type 0 where
  scan :
      ScanConfig
      → (now : ℕ) → (policy_min : Option ℕ) → (ℕ → Option (List Transfer))
      → List WatchedAddress
      → DepositCall
  confirm : (ℕ → ℕ → Option PgCode) → World → (required : ℕ) → (height : Option ℕ) → DepositCall
  sweep : World → DepositCall
  decide : (now id admin_id : ℕ) → HoldResolution → String → DepositCall

unfoldable pub run_deposit : DepositCall → Jobs → Jobs
run_deposit (scan cfg now policy_min transfers_to addresses) s =
    let r = scan_tick cfg now policy_min transfers_to addresses (s.scanner, s.db) in
    record s { scanner = r.0; db = r.1 }
run_deposit (confirm aborts w required height) s =
    let r = confirm_tick aborts w required height (s.confirmer, s.db) in
    record s { confirmer = r.0; db = r.1 }
run_deposit (sweep w) s = record s { db = (orphan_sweep w s.db).1 }
run_deposit (decide now id admin_id resolution reason) s = record s {
  db = (decide_hold now id admin_id resolution reason s.db).1;
}

unfoldable pub run_deposits : List DepositCall → Jobs → Jobs
run_deposits [] s = s
run_deposits (call ∷ calls) s = run_deposits calls (run_deposit call s)
