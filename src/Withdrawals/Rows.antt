-- ===== src/Withdrawals/Rows.antt =====
-- The table of withdrawals: `guardedUpdate`, `requireRole`, `postRefund` and `auditApproval` of
-- WithdrawalsService (backend/src/modules/withdrawals/withdrawals.service.ts), with the trigger of
-- backend/src/db/migrations/0017_dual_approval_trigger.ts.
use quata_trade.Prelude.{
  ℕ, ◌+◌, pos, neg_ℤ, String, Bool, true, false, not, ◌||◌, Option, none, some, List, [], ◌∷◌, ◌==◌,
  leb, if◌then◌else◌,
}
use quata_trade.Domain.{
  WithdrawalStatus, approved, signing, broadcast, confirmed, withdrawal_status_eq, AdminRole,
  super_admin, finance_admin, compliance_admin, user_available, platform_pending_sweep, adjustment,
}
use quata_trade.Errors.{
  withdrawal_not_found, illegal_withdrawal_state, approval_not_allowed, pg, raise_exception,
}
use quata_trade.Tx.{ok, err, Tx, pure, throw_if, ◌>>=◌}
use quata_trade.Ledger.{Actor, Key, word, uuid, withdrawal_ref, get_or_create_account, post_journal}
use quata_trade.Db.{Db, Withdrawal, on_ledger}

unfoldable pub find_withdrawal : ℕ → List Withdrawal → Option Withdrawal
find_withdrawal id [] = none
find_withdrawal id (w ∷ ws) = if w.id == id then some w else find_withdrawal id ws

unfoldable pub set_withdrawal : Withdrawal → List Withdrawal → List Withdrawal
set_withdrawal w [] = []
set_withdrawal w (v ∷ vs) = if v.id == w.id then w ∷ vs else v ∷ set_withdrawal w vs

-- The statuses `RELEASED` of the trigger.
unfoldable pub is_released : WithdrawalStatus → Bool
is_released approved = true
is_released signing = true
is_released broadcast = true
is_released confirmed = true
is_released _ = false

abbrev pub two_distinct : Option ℕ → Option ℕ → Bool
two_distinct (some a) (some b) = not (b == a)
two_distinct (some a) none = false
two_distinct none b = false

-- What the trigger asks of a row that enters a released status.
unfoldable pub dual_approved : ℕ → Withdrawal → Bool
dual_approved threshold w =
    not (leb threshold w.amount) || two_distinct w.approved_by w.second_approver

unfoldable pub passes_dual_approval : ℕ → WithdrawalStatus → Withdrawal → Bool
passes_dual_approval threshold old new =
    not (is_released new.status) || is_released old || dual_approved threshold new

-- `SELECT … WHERE id FOR UPDATE`, and the error where there is none.
unfoldable pub lock_withdrawal : ℕ → Tx Db Withdrawal
lock_withdrawal id db = elim (find_withdrawal id db.withdrawals) [
  | none ↦ err (withdrawal_not_found id)
  | some w ↦ ok (w, db)
]

unfoldable pub write_withdrawal : Withdrawal → Db → Db
write_withdrawal w db = record db { withdrawals = set_withdrawal w db.withdrawals }

-- `guardedUpdate`, `set` being what the UPDATE makes of the row; `threshold` is the setting that
-- the trigger reads.
unfoldable pub guarded_update :
    ℕ → ℕ → WithdrawalStatus → (Withdrawal → Withdrawal) → Tx Db Withdrawal
guarded_update threshold id expected set db = elim (find_withdrawal id db.withdrawals) [
  | none ↦ err (illegal_withdrawal_state expected)
  | some row ↦
      if not (withdrawal_status_eq row.status expected)
      then err (illegal_withdrawal_state expected)
      else if not (passes_dual_approval threshold row.status (set row))
      then err (pg raise_exception)
      else ok (set row, write_withdrawal (set row) db)
]

-- FIRST_APPROVER_ROLES
abbrev pub is_first_approver : AdminRole → Bool
is_first_approver super_admin = true
is_first_approver finance_admin = true
is_first_approver _ = false

-- SECOND_APPROVER_ROLES
abbrev pub is_second_approver : AdminRole → Bool
is_second_approver super_admin = true
is_second_approver finance_admin = true
is_second_approver compliance_admin = true
is_second_approver _ = false

unfoldable pub require_role : AdminRole → (AdminRole → Bool) → Tx Db (Unit {0})
require_role role allowed = throw_if (not (allowed role)) (approval_not_allowed role)

-- The keys `withdrawal:<id>:settle` and `withdrawal:<id>:refund`.
abbrev pub withdrawal_key : ℕ → String → Key
withdrawal_key id action = word "withdrawal" ∷ uuid id ∷ word action ∷ []

unfoldable pub refund_withdrawal : Withdrawal → Actor → Tx Db (Unit {0})
refund_withdrawal wd actor = do
  let total = wd.amount + wd.fee
  pending_sweep ← on_ledger (get_or_create_account none platform_pending_sweep wd.asset)
  available ← on_ledger (get_or_create_account (some wd.user_id) user_available wd.asset)
  journal ← on_ledger (
      post_journal (record {
        reason = adjustment;
        reference_type = withdrawal_ref;
        reference_id = wd.id;
        idempotency_key = withdrawal_key wd.id "refund";
        created_by = actor;
        asset = wd.asset;
        legs =
            record { account_id = pending_sweep; amount = neg_ℤ (pos total) }
            ∷ record { account_id = available; amount = pos total }
            ∷ [];
      }))
  pure tt
