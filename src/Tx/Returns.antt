-- ===== src/Tx/Returns.antt =====
-- What the result of a transaction satisfies, from what was true of the tables: rules as for
-- `Preserves`.
use quata_trade.Prelude.{◌≡◌, refl, Bool, true, false, if◌then◌else◌}
use quata_trade.Errors.{Error}
use quata_trade.Tx.{Result, ok, err, Tx, pure, throw_if, ◌>>=◌, ◌>>◌}
use quata_trade.Tx.Preserves.{Leaves, Preserves}

abbrev Yields : {S A : Type 0} → (A → Type 0) → Result (A × S) → Type 0
Yields Q (ok (a, s)) = Q a
Yields Q (err e) = Unit

pub record Returns {S A : Type 0} (P : S → Type 0) (Q : A → Type 0) (m : Tx S A) : Type 0 where
  pub at : (s : S) → P s → Yields Q (m s)

yielded :
    {S A : Type 0} (Q : A → Type 0) (r : Result (A × S)) {a : A} {s : S}
    → Yields Q r
    → r ≡ ok (a, s)
    → Q a
yielded Q r h e = rw e at h

-- A run that goes through.
pub Returns-run :
    {S A : Type 0} {P : S → Type 0} {Q : A → Type 0} (m : Tx S A) (s : S) {a : A} {s' : S}
    → Returns P Q m
    → P s
    → m s ≡ ok (a, s')
    → Q a
Returns-run {Q} m s h p e = yielded Q (m s) (h.at s p) e

module _ {S A : Type 0} {P : S → Type 0} {Q : A → Type 0} where
  pub Returns-pure : (a : A) → Q a → Returns P Q (pure a)
  Returns-pure a q = record { at = λ s h. q }

  pub Returns-if :
      (b : Bool) (m n : Tx S A) → Returns P Q m → Returns P Q n → Returns P Q (if b then m else n)
  Returns-if true m n hm hn = hm
  Returns-if false m n hm hn = hn

  pub Returns-guard :
      (b : Bool) (e : Error) (m : Tx S A)
      → (b ≡ false → Returns P Q m)
      → Returns P Q (throw_if b e >> m)
  Returns-guard true e m h = record { at = λ s p. tt }
  Returns-guard false e m h = h refl

module _ {S A B : Type 0} {P' : S → Type 0} {Q : B → Type 0} where
  continue :
      (r : Result (A × S)) (f : A → Tx S B) (R : A → Type 0)
      → Leaves P' r
      → ((a : A) (s : S) → r ≡ ok (a, s) → R a)
      → ((a : A) → R a → Returns P' Q (f a))
      → Yields Q (elim r as (λ _. Result (B × S)) [ ok (a, s') ↦ f a s' | err e ↦ err e ])
  continue (ok (a, s)) f R h k p = (p a (k a s refl)).at s h
  continue (err e) f R h k p = tt

  -- What follows may use what the first step's result satisfies, and what it made true.
  pub Returns-bind_where :
      {P : S → Type 0} (m : Tx S A) (f : A → Tx S B) (R : A → Type 0)
      → ((s : S) → P s → Leaves P' (m s))
      → ((s s' : S) (a : A) → P s → m s ≡ ok (a, s') → R a)
      → ((a : A) → R a → Returns P' Q (f a))
      → Returns P Q (m >>= f)
  Returns-bind_where {P} m f R hm hr hf = record {
    at = λ s p. continue (m s) f R (hm s p) (λ a s'. hr s s' a p) hf;
  }

module _ {S A B : Type 0} {P : S → Type 0} {Q : B → Type 0} where
  pub Returns-bind :
      (m : Tx S A) (f : A → Tx S B)
      → Preserves P m
      → ((a : A) → Returns P Q (f a))
      → Returns P Q (m >>= f)
  Returns-bind m f hm hf = Returns-bind_where m f (λ a. Unit) hm.at (λ s s' a p e. tt) (λ a u. hf a)

Leaves-anything : {S A : Type 0} (r : Result (A × S)) → Leaves (λ s. Unit) r
Leaves-anything (ok p) = tt
Leaves-anything (err e) = tt

-- What follows needs nothing of the first step.
pub Returns-then :
    {S A B : Type 0} {P : S → Type 0} {Q : B → Type 0} (m : Tx S A) (f : A → Tx S B)
    → ((a : A) → Returns (λ s. Unit) Q (f a))
    → Returns P Q (m >>= f)
Returns-then m f hf =
    Returns-bind_where m f (λ a. Unit) (λ s p. Leaves-anything (m s)) (λ s s' a p e. tt)
      (λ a u. hf a)
