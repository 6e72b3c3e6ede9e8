-- ===== src/Deposits/Policy.antt =====
-- `holdReason` (backend/src/modules/deposits/deposit-confirmation.service.ts): why a deposit is held
-- for review. What the settings say is in two records.
use quata_trade.Prelude.{
  ℕ, ◌+◌, ℤ, pos, ◌+ℤ◌, ltb_ℤ, Bool, false, ◌&&◌, Option, none, some, List, [], ◌∷◌, ltb, ◌==◌,
  if◌then◌else◌,
}
use quata_trade.Domain.{AssetCode, user_available, kind_eq, asset_eq}
use quata_trade.Tx.{Tx, pure, gets, ◌>>=◌}
use quata_trade.Ledger.{Account, Balance, find_account_row, balance_of, get_or_create_account}
use quata_trade.Fees.{Number}
use quata_trade.Db.{
  Db, Deposit, PolicyReason, below_minimum, above_maximum, above_user_balance, above_daily_limit,
  above_custody, on_ledger,
}
use quata_trade.Deposits.Rows.{is_credited}

-- `depositPolicy()`
pub record DepositPolicy : Type 0 where
  pub min_amount : ℕ
  pub max_amount : Option ℕ
  pub fee_fixed : ℤ
  pub fee_bps : Number

-- `launchLimits()`; 0 is no limit.
pub record Limits : Type 0 where
  pub max_user_balance : ℕ
  pub max_daily_deposit_per_user : ℕ
  pub max_platform_custody : ℕ

abbrev pub day_ms : ℕ
day_ms = 86_400_000

-- SUM(amount) of what the user has been credited in the last 24 hours.
unfoldable pub credited_since : ℕ → Deposit → List Deposit → ℕ
credited_since now d [] = 0
credited_since now d (e ∷ es) =
    let rest = credited_since now d es in
    if e.user_id == d.user_id
      && (asset_eq e.asset d.asset && (is_credited e.status && ltb now (e.created_at + day_ms)))
    then e.amount + rest
    else rest

abbrev pub is_available_row : AssetCode → Option Account → Bool
is_available_row c none = false
is_available_row c (some r) = kind_eq r.kind user_available && asset_eq r.asset c

-- SUM(balance) over the users' available balances.
unfoldable pub custody : AssetCode → List Account → List Balance → ℤ
custody c rs [] = pos 0
custody c rs (b ∷ bs) =
    let rest = custody c rs bs in
    if is_available_row c (find_account_row b.account_id rs) then b.balance +ℤ rest else rest

unfoldable pub exceeds_maximum : ℕ → Option ℕ → Bool
exceeds_maximum amount none = false
exceeds_maximum amount (some max) = ltb max amount

unfoldable pub custody_reason : Deposit → Limits → Tx Db (Option PolicyReason)
custody_reason d limits =
    if ltb 0 limits.max_platform_custody
    then (do
      total ← gets (λ db. custody d.asset db.ledger.accounts db.ledger.balances)
      pure (
          if ltb_ℤ (pos limits.max_platform_custody) (total +ℤ pos d.amount)
          then some above_custody
          else none))
    else pure none

unfoldable pub daily_reason : ℕ → Deposit → Limits → Tx Db (Option PolicyReason)
daily_reason now d limits =
    if ltb 0 limits.max_daily_deposit_per_user
    then (do
      last_24h ← gets (λ db. credited_since now d db.deposits)
      if ltb limits.max_daily_deposit_per_user (last_24h + d.amount)
          then pure (some above_daily_limit)
          else custody_reason d limits)
    else custody_reason d limits

unfoldable pub balance_reason : ℕ → Deposit → Limits → Tx Db (Option PolicyReason)
balance_reason now d limits =
    if ltb 0 limits.max_user_balance
    then (do
      account ← on_ledger (get_or_create_account (some d.user_id) user_available d.asset)
      balance ← gets (λ db. balance_of account db.ledger.balances)
      if ltb_ℤ (pos limits.max_user_balance) (balance +ℤ pos d.amount)
          then pure (some above_user_balance)
          else daily_reason now d limits)
    else daily_reason now d limits

unfoldable pub hold_reason : ℕ → Deposit → DepositPolicy → Limits → Tx Db (Option PolicyReason)
hold_reason now d policy limits =
    if ltb d.amount policy.min_amount
    then pure (some below_minimum)
    else if exceeds_maximum d.amount policy.max_amount
    then pure (some above_maximum)
    else balance_reason now d limits
