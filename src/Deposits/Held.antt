-- ===== src/Deposits/Held.antt =====
-- HeldDepositsService (backend/src/modules/admin/held-deposits.service.ts): an admin releases or
-- rejects a deposit that is held.
use quata_trade.Prelude.{ℕ, Bool, true, false, not, ◌||◌, Option, none, some, if◌then◌else◌, String}
use quata_trade.Errors.{held_deposit_not_found, held_deposit_already_resolved}
use quata_trade.Tx.{Tx, Service, throw, throw_if, gets, ◌>>=◌, ◌>>◌, execute}
use quata_trade.Db.{
  Db, Deposit, HoldResolution, released_hold, rejected_hold, deposit_hold_decided,
  audit_hold_decided,
}
use quata_trade.Tables.{enqueue_outbox, audit}
use quata_trade.Deposits.Rows.{find_deposit, write_deposit}

abbrev pub is_undecided : Option HoldResolution → Bool
is_undecided none = true
is_undecided (some r) = false

-- A release takes the flags off, a rejection leaves them.
abbrev pub keeps_flag : HoldResolution → Bool → Bool
keeps_flag released_hold flag = false
keeps_flag rejected_hold flag = flag

-- SET … WHERE hold_resolution IS NULL
abbrev pub decided_row : ℕ → ℕ → HoldResolution → String → Deposit → Deposit
decided_row now admin_id resolution reason d =
    if is_undecided d.hold_resolution
    then record d {
      hold_resolution = some resolution;
      hold_resolution_reason = some reason;
      hold_resolved_by = some admin_id;
      hold_resolved_at = some now;
      aml_hold = keeps_flag resolution d.aml_hold;
      policy_hold = keeps_flag resolution d.policy_hold;
      updated_at = some now;
    }
    else d

unfoldable pub write_decision : ℕ → ℕ → ℕ → HoldResolution → String → Tx Db (Unit {0})
write_decision now id admin_id resolution reason = do
  write_deposit id (decided_row now admin_id resolution reason)
  audit (audit_hold_decided id resolution admin_id)
  enqueue_outbox (deposit_hold_decided id resolution admin_id)

unfoldable pub decide_found :
    ℕ → ℕ → ℕ → HoldResolution → String → Option Deposit → Tx Db (Unit {0})
decide_found now id admin_id resolution reason none = throw (held_deposit_not_found id)
decide_found now id admin_id resolution reason (some d) = do
  throw_if (not (d.aml_hold || d.policy_hold)) (held_deposit_not_found id)
  throw_if (not (is_undecided d.hold_resolution)) held_deposit_already_resolved
  write_decision now id admin_id resolution reason

unfoldable pub decide_hold_tx : ℕ → ℕ → ℕ → HoldResolution → String → Tx Db (Unit {0})
decide_hold_tx now id admin_id resolution reason = do
  found ← gets (λ db. find_deposit id db.deposits)
  decide_found now id admin_id resolution reason found

-- `decide`; the row that comes back is for the console.
unfoldable pub decide_hold : ℕ → ℕ → ℕ → HoldResolution → String → Service Db (Unit {0})
decide_hold now id admin_id resolution reason =
    execute (decide_hold_tx now id admin_id resolution reason)
