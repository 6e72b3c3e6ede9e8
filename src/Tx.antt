-- ===== src/Tx.antt =====
-- Transactions. Inside one, an error discards what was written (the rollback), so the state comes
-- back only beside a result. Also `withMoneyTransaction` (backend/src/modules/ledger/ledger.service.ts).
pub mod Guards
pub mod Retry
pub mod Preserves
pub mod Ensures
pub mod Returns
use quata_trade.Prelude.{
  ℕ, zero, suc, ◌+◌, Bool, true, false, Option, none, some, if◌then◌else◌, ◌≡◌, ◌⊎◌, inl, inr, refl,
}
use quata_trade.Errors.{
  Error, pg, PgCode, serialization_failure, deadlock_detected, serialization_retry_exhausted,
}

pub data Result (A : Type 0) : Type 0 where
  ok : A → Result A
  err : Error → Result A

pub Result-cases :
    {A : Type 0} (r : Result A) → ((a : A) × (r ≡ ok a)) ⊎ ((e : Error) × (r ≡ err e))
Result-cases (ok a) = inl (a, refl)
Result-cases (err e) = inr (e, refl)

abbrev pub IsOk : {A : Type 0} → Result A → Type 0
IsOk (ok a) = Unit
IsOk (err e) = ⊥

-- The body of a transaction over the tables `S`.
abbrev pub Tx : Type 0 → Type 0 → Type 0
Tx S A = S → Result (A × S)

-- A service method: the caller sees the result, and the tables as they were committed.
abbrev pub Service : Type 0 → Type 0 → Type 0
Service S A = S → Result A × S

module _ {S A : Type 0} where
  abbrev pub pure : A → Tx S A
  pure a s = ok (a, s)

  abbrev pub throw : Error → Tx S A
  throw e s = err e

  abbrev pub lift : Result A → Tx S A
  lift (ok a) s = ok (a, s)
  lift (err e) s = err e

  abbrev pub gets : (S → A) → Tx S A
  gets f s = ok (f s, s)

  abbrev pub or_throw : Option A → Error → Tx S A
  or_throw none e s = err e
  or_throw (some a) e s = ok (a, s)

infixl 5 ◌>>=◌ ◌>>◌
abbrev pub ◌>>=◌ : {S A B : Type 0} → Tx S A → (A → Tx S B) → Tx S B
◌>>=◌ m f s = elim (m s) [ ok (a, s') ↦ f a s' | err e ↦ err e ]

abbrev pub ◌>>◌ : {S A B : Type 0} → Tx S A → Tx S B → Tx S B
m >> k = m >>= λ _. k

abbrev pub throw_if : {S : Type 0} → Bool → Error → Tx S (Unit {0})
throw_if c e s = if c then err e else ok (tt, s)

abbrev pub modify : {S : Type 0} → (S → S) → Tx S (Unit {0})
modify f s = ok (tt, f s)

-- `db.transaction().execute(fn)`: commit, or roll back.
unfoldable pub execute : {S A : Type 0} → Tx S A → Service S A
execute fn s = elim (fn s) [ ok (a, s') ↦ (ok a, s') | err e ↦ (err e, s) ]

-- The codes after which the wrapper tries again.
unfoldable pub is_retryable : Error → Bool
is_retryable (pg serialization_failure) = true
is_retryable (pg deadlock_detected) = true
is_retryable _ = false

abbrev pub max_retries : ℕ
max_retries = 3

-- One attempt, which the database may abort with a code of its own.
run_attempt : {S A : Type 0} → Option PgCode → Tx S A → Tx S A
run_attempt none fn s = fn s
run_attempt (some code) fn s = err (pg code)

-- The `for` loop, on the attempts that are left; `attempt` counts from 1.
attempts : {S A : Type 0} → (ℕ → Option PgCode) → Tx S A → ℕ → ℕ → Service S A
attempts aborts fn zero attempt s = (err serialization_retry_exhausted, s)
attempts aborts fn (suc left) attempt s = elim (run_attempt (aborts attempt) fn s) [
  | ok (a, s') ↦ (ok a, s')
  | err e ↦ elim (is_retryable e) [
    | true ↦ attempts aborts fn left (attempt + 1) s
    | false ↦ (err e, s)
  ]
]

-- `aborts n` is the code with which the database ends attempt `n`, if it does.
unfoldable pub with_money_transaction : {S A : Type 0} → (ℕ → Option PgCode) → Tx S A → Service S A
unfolding attempts run_attempt is_retryable
with_money_transaction aborts fn = attempts aborts fn max_retries 1
