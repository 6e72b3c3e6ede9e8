-- ===== src/Tx/Retry.antt =====
-- What `withMoneyTransaction` promises whatever the database does to the attempts.
use quata_trade.Prelude.{
  ℕ, zero, suc, ◌+◌, ◌≤◌, ◌≡◌, refl, ◌∙◌, true, false, Option, none, some, arith,
}
use quata_trade.Errors.{PgCode, pg, serialization_retry_exhausted}
use quata_trade.Tx.{
  Result, ok, err, Tx, execute, is_retryable, run_attempt, attempts, with_money_transaction,
}

-- A result is the body's own, committed from the state of the call; an error changes nothing.
abbrev pub IsAtomic : {S A : Type 0} → Tx S A → S → Result A × S → Type 0
IsAtomic fn s (ok a, s') = fn s ≡ ok (a, s')
IsAtomic fn s (err e, s') = s' ≡ s

attempts-IsAtomic :
    {S A : Type 0} (aborts : ℕ → Option PgCode) (fn : Tx S A) (left attempt : ℕ) (s : S)
    → IsAtomic fn s (attempts aborts fn left attempt s)
unfolding attempts run_attempt
attempts-IsAtomic aborts fn zero attempt s = refl
attempts-IsAtomic aborts fn (suc left) attempt s =
    ground (arith, attempts-IsAtomic aborts fn left (attempt + 1) s)

-- Whatever aborts the attempts, a result is that of one run of the body from the state of the
-- call, with what that run wrote; with an error nothing is written.
pub with_money_transaction-IsAtomic :
    {S A : Type 0} (aborts : ℕ → Option PgCode) (fn : Tx S A) (s : S)
    → IsAtomic fn s (with_money_transaction aborts fn s)
unfolding with_money_transaction
with_money_transaction-IsAtomic aborts fn s = attempts-IsAtomic aborts fn 3 1 s

-- The attempt ends in an abort after which the wrapper tries again.
abbrev pub Retries : Option PgCode → Type 0
Retries none = ⊥
Retries (some code) = is_retryable (pg code) ≡ true

-- The attempts from `first` on, `n` of them, are aborted.
abbrev pub Aborted : (ℕ → Option PgCode) → ℕ → ℕ → Type 0
Aborted aborts first zero = Unit
Aborted aborts first (suc n) = Retries (aborts first) × Aborted aborts (first + 1) n

abbrev pub IsFinal : {S A : Type 0} → Result (A × S) → Type 0
IsFinal (ok _) = Unit
IsFinal (err e) = is_retryable e ≡ false

one_retry :
    {S A : Type 0} (aborts : ℕ → Option PgCode) (fn : Tx S A) (left attempt : ℕ) (s : S)
    → Retries (aborts attempt)
    → attempts aborts fn (suc left) attempt s ≡ attempts aborts fn left (attempt + 1) s
unfolding attempts run_attempt
one_retry aborts fn left attempt s h = ground arith

last_attempt :
    {S A : Type 0} (aborts : ℕ → Option PgCode) (fn : Tx S A) (left attempt : ℕ) (s : S)
    → aborts attempt ≡ none
    → IsFinal (fn s)
    → attempts aborts fn (suc left) attempt s ≡ execute fn s
unfolding attempts run_attempt execute
last_attempt aborts fn left attempt s h f = ground arith

-- With at most two aborted attempts the call is the body's plain execution.
pub with_money_transaction-eq-execute :
    {S A : Type 0} (aborts : ℕ → Option PgCode) (fn : Tx S A) (n : ℕ) (s : S)
    → n ≤ 2
    → Aborted aborts 1 n
    → aborts (1 + n) ≡ none
    → IsFinal (fn s)
    → with_money_transaction aborts fn s ≡ execute fn s
unfolding with_money_transaction
with_money_transaction-eq-execute aborts fn zero s b h e f = last_attempt aborts fn 2 1 s e f
with_money_transaction-eq-execute aborts fn (suc zero) s b h e f =
    one_retry aborts fn 2 1 s h.0 ∙ last_attempt aborts fn 1 2 s e f
with_money_transaction-eq-execute aborts fn (suc (suc zero)) s b h e f =
    one_retry aborts fn 2 1 s h.0
    ∙ one_retry aborts fn 1 2 s h.1.0
    ∙ last_attempt aborts fn 0 3 s e f
with_money_transaction-eq-execute aborts fn (suc (suc (suc n))) s b h e f = absurd (omega arith)

-- Three aborted attempts end in the error for exhausted retries, with nothing written.
pub with_money_transaction_exhausted :
    {S A : Type 0} (aborts : ℕ → Option PgCode) (fn : Tx S A) (s : S)
    → Aborted aborts 1 3
    → with_money_transaction aborts fn s ≡ (err serialization_retry_exhausted, s)
unfolding with_money_transaction attempts
with_money_transaction_exhausted aborts fn s h =
    one_retry aborts fn 2 1 s h.0
    ∙ one_retry aborts fn 1 2 s h.1.0
    ∙ one_retry aborts fn 0 3 s h.1.1.0
