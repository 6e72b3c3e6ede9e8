-- ===== src/Tx/Ensures.antt =====
-- What a transaction makes true, from what was true before: rules as for `Preserves`, with two
-- predicates.
use quata_trade.Prelude.{◌≡◌, refl, inl, inr, Bool, true, false, if◌then◌else◌}
use quata_trade.Errors.{Error}
use quata_trade.Tx.{Result, ok, err, Tx, Result-cases, throw_if, ◌>>=◌, ◌>>◌}
use quata_trade.Tx.Preserves.{Leaves, Preserves}

pub record Ensures {S A : Type 0} (P Q : S → Type 0) (m : Tx S A) : Type 0 where
  pub at : (s : S) → P s → Leaves Q (m s)

module _ {S A : Type 0} {P Q : S → Type 0} where
  -- By what a run that goes through tells.
  pub Ensures-run :
      (m : Tx S A) → ((s s' : S) (a : A) → P s → m s ≡ ok (a, s') → Q s') → Ensures P Q m
  Ensures-run m k = record {
    at = λ s h. elim (Result-cases (m s)) [
      | inl ((a, s'), e) ↦ rw e (k s s' a h e)
      | inr (x, e) ↦ rw e tt
    ];
  }

  pub Ensures-ite :
      (b : Bool) (m n : Tx S A)
      → (b ≡ true → Ensures P Q m)
      → (b ≡ false → Ensures P Q n)
      → Ensures P Q (if b then m else n)
  Ensures-ite true m n hm hn = hm refl
  Ensures-ite false m n hm hn = hn refl

  pub Ensures-guard :
      (b : Bool) (e : Error) (m : Tx S A)
      → (b ≡ false → Ensures P Q m)
      → Ensures P Q (throw_if b e >> m)
  Ensures-guard true e m h = record { at = λ s p. tt }
  Ensures-guard false e m h = h refl

pub Ensures-Preserves : {S A : Type 0} {P : S → Type 0} {m : Tx S A} → Ensures P P m → Preserves P m
Ensures-Preserves h = record { at = h.at }

module _ {S A B : Type 0} {Q : S → Type 0} where
  continue :
      (r : Result (A × S)) (f : A → Tx S B) (R : A → S → Type 0)
      → ((a : A) (s : S) → r ≡ ok (a, s) → R a s)
      → ((a : A) → Ensures (R a) Q (f a))
      → Leaves Q (elim r as (λ _. Result (B × S)) [ ok (a, s') ↦ f a s' | err e ↦ err e ])
  continue (ok (a, s)) f R k p = (p a).at s (k a s refl)
  continue (err e) f R k p = tt

  pub Ensures-bind :
      {P : S → Type 0} (m : Tx S A) (f : A → Tx S B) (R : A → S → Type 0)
      → ((s s' : S) (a : A) → P s → m s ≡ ok (a, s') → R a s')
      → ((a : A) → Ensures (R a) Q (f a))
      → Ensures P Q (m >>= f)
  Ensures-bind m f R k p = record { at = λ s h. continue (m s) f R (λ a s'. k s s' a h) p }

  pub Ensures-then :
      {P R : S → Type 0} {m : Tx S A} {f : A → Tx S B}
      → Ensures P R m
      → ((a : A) → Ensures R Q (f a))
      → Ensures P Q (m >>= f)
  Ensures-then {P} {R} {m} {f} h k = Ensures-bind m f (λ a. R) (λ s s' a p e. rw e at (h.at s p)) k
