-- ===== src/Withdrawals/Settle.antt =====
-- What the workers call: `claimForSigning`, `markBroadcast`, `settleConfirmed` and `markFailed` of
-- WithdrawalsService (backend/src/modules/withdrawals/withdrawals.service.ts).
use quata_trade.Prelude.{
  ℕ, ◌+◌, pos, neg_ℤ, String, Bool, true, false, not, Option, none, some, List, [], ◌∷◌, ltb,
  if◌then◌else◌,
}
use quata_trade.Domain.{
  WithdrawalStatus, approved, signing, broadcast, confirmed, failed, withdrawal_status_eq, external,
  platform_pending_sweep, platform_treasury, withdrawal_fee,
}
use quata_trade.Errors.{PgCode}
use quata_trade.Tx.{ok, Tx, Service, pure, ◌>>=◌, ◌>>◌, with_money_transaction}
use quata_trade.Ledger.{system, withdrawal_ref, Leg, get_or_create_account, post_journal}
use quata_trade.Db.{
  Db, Withdrawal, on_ledger, withdrawal_broadcast, withdrawal_confirmed, withdrawal_failed,
  audit_withdrawal_confirmed, audit_withdrawal_failed,
}
use quata_trade.Withdrawals.Rows.{
  find_withdrawal, write_withdrawal, guarded_update, withdrawal_key, refund_withdrawal,
}
use quata_trade.Tables.{enqueue_outbox, audit}

-- The lone statement `UPDATE … WHERE id AND status = expected`, and whether it matched a row. The
-- trigger lets both uses of it pass, as they leave a released status.
unfoldable pub update_where : ℕ → WithdrawalStatus → (Withdrawal → Withdrawal) → Db → Bool × Db
update_where id expected set db = elim (find_withdrawal id db.withdrawals) [
  | none ↦ (false, db)
  | some row ↦
      if withdrawal_status_eq row.status expected
      then (true, write_withdrawal (set row) db)
      else (false, db)
]

-- What the UPDATEs set.
abbrev pub claim : Withdrawal → Withdrawal
claim row = record row { status = signing }

abbrev pub broadcasting : ℕ → Withdrawal → Withdrawal
broadcasting tx_hash row = record row { status = broadcast; tx_hash = some tx_hash }

abbrev pub confirmation : Withdrawal → Withdrawal
confirmation row = record row { status = confirmed }

abbrev pub failure : String → Withdrawal → Withdrawal
failure safe_reason row = record row { status = failed; failure_reason = some safe_reason }

unfoldable pub claim_for_signing : ℕ → Service Db Bool
claim_for_signing withdrawal_id db =
    let (claimed, db') = update_where withdrawal_id approved claim db in (ok claimed, db')

unfoldable pub announce_broadcast : ℕ → Bool × Db → Bool × Db
announce_broadcast withdrawal_id (true, db) =
    (true, record db { outbox = withdrawal_broadcast withdrawal_id ∷ db.outbox })
announce_broadcast withdrawal_id (false, db) = (false, db)

unfoldable pub mark_broadcast : ℕ → ℕ → Service Db Bool
mark_broadcast withdrawal_id tx_hash db =
    let (marked, db') =
      announce_broadcast withdrawal_id
        (update_where withdrawal_id signing (broadcasting tx_hash) db) in
    (ok marked, db')

-- The legs of a settlement: the treasury's only where there is a fee.
abbrev pub settle_legs : Withdrawal → ℕ → ℕ → ℕ → List Leg
settle_legs wd pending_sweep outside treasury =
    let total = wd.amount + wd.fee in
    if ltb 0 wd.fee
    then record { account_id = pending_sweep; amount = neg_ℤ (pos total) }
      ∷ record { account_id = outside; amount = pos wd.amount }
      ∷ record { account_id = treasury; amount = pos wd.fee }
      ∷ []
    else record { account_id = pending_sweep; amount = neg_ℤ (pos total) }
      ∷ record { account_id = outside; amount = pos wd.amount }
      ∷ []

unfoldable pub settle : ℕ → Withdrawal → Tx Db Bool
settle threshold wd = do
  pending_sweep ← on_ledger (get_or_create_account none platform_pending_sweep wd.asset)
  outside ← on_ledger (get_or_create_account none external wd.asset)
  treasury ← on_ledger (get_or_create_account none platform_treasury wd.asset)
  journal ← on_ledger (
      post_journal (record {
        reason = withdrawal_fee;
        reference_type = withdrawal_ref;
        reference_id = wd.id;
        idempotency_key = withdrawal_key wd.id "settle";
        created_by = system;
        asset = wd.asset;
        legs = settle_legs wd pending_sweep outside treasury;
      }))
  updated ← guarded_update threshold wd.id broadcast confirmation
  enqueue_outbox (withdrawal_confirmed wd.id)
  audit (audit_withdrawal_confirmed wd.id)
  pure true

-- `if (!wd || wd.status !== expected) return false`
unfoldable pub when_status : ℕ → WithdrawalStatus → (Withdrawal → Tx Db Bool) → Tx Db Bool
when_status id expected f db = elim (find_withdrawal id db.withdrawals) [
  | none ↦ ok (false, db)
  | some wd ↦ if not (withdrawal_status_eq wd.status expected) then ok (false, db) else f wd db
]

unfoldable pub settle_confirmed : (ℕ → Option PgCode) → ℕ → ℕ → Service Db Bool
settle_confirmed aborts threshold withdrawal_id =
    with_money_transaction aborts (when_status withdrawal_id broadcast (settle threshold))

unfoldable pub fail_and_refund : ℕ → String → Withdrawal → Tx Db Bool
fail_and_refund threshold safe_reason wd = do
  updated ← guarded_update threshold wd.id signing (failure safe_reason)
  refund_withdrawal wd system
  enqueue_outbox (withdrawal_failed wd.id)
  audit (audit_withdrawal_failed wd.id)
  pure true

-- `cut` is the string method that `reason.slice(0, 500)` calls.
unfoldable pub mark_failed :
    (String → String) → (ℕ → Option PgCode) → ℕ → ℕ → String → Service Db Bool
mark_failed cut aborts threshold withdrawal_id reason =
    with_money_transaction aborts
      (when_status withdrawal_id signing (fail_and_refund threshold (cut reason)))
