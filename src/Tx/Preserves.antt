-- ===== src/Tx/Preserves.antt =====
-- Invariants of transactions, with a rule for each way to build one, and of the service methods
-- that run them.
use quata_trade.Prelude.{ℕ, ◌≡◌, refl, inl, inr, Bool, true, false, Option, if◌then◌else◌}
use quata_trade.Errors.{Error, PgCode}
use quata_trade.Tx.{
  Result, ok, err, Tx, Result-cases, pure, throw, throw_if, modify, ◌>>=◌, ◌>>◌, execute,
  with_money_transaction,
}
use quata_trade.Tx.Retry.{IsAtomic, with_money_transaction-IsAtomic}

abbrev pub Leaves : {S A : Type 0} → (S → Type 0) → Result (A × S) → Type 0
Leaves P (ok (a, s)) = P s
Leaves P (err e) = Unit

-- A result leaves a state with `P`, if there was one before.
pub record Preserves {S A : Type 0} (P : S → Type 0) (m : Tx S A) : Type 0 where
  pub at : (s : S) → P s → Leaves P (m s)

module _ {S A : Type 0} {P : S → Type 0} where
  pub Preserves-pure : (a : A) → Preserves P (pure a)
  Preserves-pure a = record { at = λ s h. h }

  pub Preserves-throw : (e : Error) → Preserves P (throw {A = A} e)
  Preserves-throw e = record { at = λ s h. tt }

  pub Preserves-if :
      (b : Bool) (m n : Tx S A) → Preserves P m → Preserves P n → Preserves P (if b then m else n)
  Preserves-if true m n hm hn = hm
  Preserves-if false m n hm hn = hn

module _ {S : Type 0} {P : S → Type 0} where
  pub Preserves-throw_if : (b : Bool) (e : Error) → Preserves P (throw_if {S = S} b e)
  Preserves-throw_if true e = record { at = λ s h. tt }
  Preserves-throw_if false e = record { at = λ s h. h }

  pub Preserves-modify : (f : S → S) → ((s : S) → P s → P (f s)) → Preserves P (modify f)
  Preserves-modify f h = record { at = h }

module _ {S A B : Type 0} {P : S → Type 0} where
  continue :
      (r : Result (A × S)) (f : A → Tx S B)
      → Leaves P r
      → ((a : A) → Preserves P (f a))
      → Leaves P (elim r as (λ _. Result (B × S)) [ ok (a, s') ↦ f a s' | err e ↦ err e ])
  continue (ok (a, s)) f h k = (k a).at s h
  continue (err e) f h k = tt

  pub Preserves-bind :
      (m : Tx S A) (f : A → Tx S B)
      → Preserves P m
      → ((a : A) → Preserves P (f a))
      → Preserves P (m >>= f)
  Preserves-bind m f hm hf = record { at = λ s h. continue (m s) f (hm.at s h) hf }

module _ {S A : Type 0} {P : S → Type 0} where
  -- An `if`, each branch under what its test says.
  pub Preserves-ite :
      (b : Bool) (m n : Tx S A)
      → (b ≡ true → Preserves P m)
      → (b ≡ false → Preserves P n)
      → Preserves P (if b then m else n)
  Preserves-ite true m n hm hn = hm refl
  Preserves-ite false m n hm hn = hn refl

  -- What follows a guard may use that it passed.
  pub Preserves-guard :
      (b : Bool) (e : Error) (m : Tx S A)
      → (b ≡ false → Preserves P m)
      → Preserves P (throw_if b e >> m)
  Preserves-guard true e m h = record { at = λ s p. tt }
  Preserves-guard false e m h = h refl

module _ {S A B : Type 0} {P : S → Type 0} where
  continue_where :
      (r : Result (A × S)) (f : A → Tx S B) (R : A → Type 0)
      → Leaves P r
      → ((a : A) (s : S) → r ≡ ok (a, s) → R a)
      → ((a : A) → R a → Preserves P (f a))
      → Leaves P (elim r as (λ _. Result (B × S)) [ ok (a, s') ↦ f a s' | err e ↦ err e ])
  continue_where (ok (a, s)) f R h k p = (p a (k a s refl)).at s h
  continue_where (err e) f R h k p = tt

  -- What follows may use what the first step's result satisfies.
  pub Preserves-bind_where :
      (m : Tx S A) (f : A → Tx S B) (R : A → Type 0)
      → ((s s' : S) (a : A) → m s ≡ ok (a, s') → R a)
      → Preserves P m
      → ((a : A) → R a → Preserves P (f a))
      → Preserves P (m >>= f)
  Preserves-bind_where m f R hr hm hf = record {
    at = λ s h. continue_where (m s) f R (hm.at s h) (λ a s' e. hr s s' a e) hf;
  }

pub ruleset preserves_rules =
    (Preserves-pure, Preserves-throw, Preserves-if, Preserves-throw_if, Preserves-bind)

module _ {S A : Type 0} {P : S → Type 0} where
  after : (m : Tx S A) (s : S) (r : Result A × S) → Preserves P m → P s → IsAtomic m s r → P r.1
  after m s (ok a, s') h p e = rw e at (h.at s p)
  after m s (err x, s') h p e = rw e p

  -- A service method keeps what its body preserves, however often it is tried and however it ends.
  pub with_money_transaction-keeps :
      (aborts : ℕ → Option PgCode) (m : Tx S A) (s : S)
      → Preserves P m
      → P s
      → P (with_money_transaction aborts m s).1
  with_money_transaction-keeps aborts m s h p =
      after m s (with_money_transaction aborts m s) h p (with_money_transaction-IsAtomic aborts m s)

  pub execute-keeps : (m : Tx S A) (s : S) → Preserves P m → P s → P (execute m s).1
  unfolding execute
  execute-keeps m s h p = elim (Result-cases (m s)) [
    | inl ((a, s'), e) ↦ rw (e, execute) (rw e at (h.at s p))
    | inr (x, e) ↦ rw (e, execute) p
  ]
