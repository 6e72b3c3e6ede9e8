-- ===== src/Tests/Transactions.antt =====
-- The retries of a money transaction on a counter.
use quata_trade.Prelude.{ℕ, suc, ◌≡◌, refl, Option, none, some, ◌==◌, if◌then◌else◌, arith}
use quata_trade.Errors.{
  PgCode, serialization_failure, deadlock_detected, serialization_retry_exhausted,
}
use quata_trade.Tx.{Tx, ok, err, execute, is_retryable, with_money_transaction}
use quata_trade.Tx.Retry.{with_money_transaction-eq-execute, with_money_transaction_exhausted}

abbrev count_up : Tx ℕ ℕ
count_up n = ok (n, suc n)

abbrev first_two : ℕ → Option PgCode
first_two n =
    if n == 1 then some serialization_failure else if n == 2 then some deadlock_detected else none

abbrev always : ℕ → Option PgCode
always n = some serialization_failure

with_money_transaction-eq-execute_example :
    with_money_transaction first_two count_up 5 ≡ execute count_up 5
unfolding is_retryable
with_money_transaction-eq-execute_example =
    with_money_transaction-eq-execute first_two count_up 2 5 (omega arith) (refl, (refl, tt)) refl
      tt

with_money_transaction_exhausted_example :
    with_money_transaction always count_up 5 ≡ (err serialization_retry_exhausted, 5)
unfolding is_retryable
with_money_transaction_exhausted_example =
    with_money_transaction_exhausted always count_up 5 (refl, (refl, (refl, tt)))
