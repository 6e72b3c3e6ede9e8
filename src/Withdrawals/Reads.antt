-- ===== src/Withdrawals/Reads.antt =====
-- What WithdrawalsService (backend/src/modules/withdrawals/withdrawals.service.ts) reads: the quote
-- of a charge, and the owner's view of a withdrawal.
use quata_trade.Prelude.{ℕ, ◌+◌, Option, none, some, ◌==◌, if◌then◌else◌}
use quata_trade.Errors.{no_result}
use quata_trade.Tx.{Result, ok, err}
use quata_trade.Db.{Db, Withdrawal}
use quata_trade.Tables.{find_user}
use quata_trade.Withdrawals.Rows.{find_withdrawal}
use quata_trade.Withdrawals.Request.{Outside, withdrawal_charge}

-- The numbers of a quote, before they are written as text.
pub record Quote : Type 0 where
  pub amount : ℕ
  pub fee : ℕ
  pub network_fee_estimate : ℕ
  pub total : ℕ

-- `network_fee` is `withdrawalNetworkFee`. The other answers are those that `request` reads.
unfoldable pub quote : ℕ → Outside → ℕ → ℕ → Db → Result Quote
quote network_fee o user_id amount db = elim (find_user user_id db.users) [
  | none ↦ err no_result
  | some user ↦ elim (withdrawal_charge o amount) [
    | err e ↦ err e
    | ok fee ↦ ok (record {
      amount = amount;
      fee = fee;
      network_fee_estimate = network_fee;
      total = amount + fee;
    })
  ]
]

-- Another user's withdrawal is not found.
unfoldable pub get_for_user : ℕ → ℕ → Db → Option Withdrawal
get_for_user withdrawal_id user_id db = elim (find_withdrawal withdrawal_id db.withdrawals) [
  | none ↦ none
  | some row ↦ if row.user_id == user_id then some row else none
]
