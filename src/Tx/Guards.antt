-- ===== src/Tx/Guards.antt =====
-- What a guarded write tells once it has gone through.
use quata_trade.Prelude.{
  ◌≡◌, refl, sym, ap, Bool, true, false, not, Option, none, some, if◌then◌else◌,
}
use quata_trade.Errors.{Error}
use quata_trade.Tx.{Result, ok, err, Tx, ◌>>=◌, throw_if, lift}

pub guard_ok :
    {A : Type 0} (b : Bool) (e : Error) (r : Result A) {a : A}
    → (if not b then err e else r) ≡ ok a
    → (b ≡ true) × (r ≡ ok a)
guard_ok true e r h = (refl, h)
guard_ok false e r h = cc

pub found_ok :
    {A B : Type 0} (o : Option A) (e : Error) (k : A → Result B) {b : B}
    → elim o as (λ _. Result B) [ none ↦ err e | some r ↦ k r ] ≡ ok b
    → (r : A) × (o ≡ some r) × (k r ≡ ok b)
found_ok none e k h = cc
found_ok (some r) e k h = (r, refl, h)

pub ok_inj : {A : Type 0} {r r' : A} → ok r ≡ ok r' → r' ≡ r
ok_inj h = cc

continued_ok :
    {S A B : Type 0} (r : Result (A × S)) (f : A → Tx S B) (b : B) (s' : S)
    → elim r as (λ _. Result (B × S)) [ ok (a, t) ↦ f a t | err e ↦ err e ] ≡ ok (b, s')
    → (a : A) × (t : S) × (r ≡ ok (a, t)) × (f a t ≡ ok (b, s'))
continued_ok (ok (a, t)) f b s' h = (a, t, refl, h)
continued_ok (err e) f b s' h = cc

-- A sequence that goes through: its first step did, and then the rest.
pub bind_ok :
    {S A B : Type 0} (m : Tx S A) (f : A → Tx S B) (s s' : S) {b : B}
    → (m >>= f) s ≡ ok (b, s')
    → (a : A) × (t : S) × (m s ≡ ok (a, t)) × (f a t ≡ ok (b, s'))
bind_ok m f s s' {b} h = continued_ok (m s) f b s' h

-- A guard that is passed leaves the state.
pub throw_if_ok :
    {S : Type 0} (b : Bool) (e : Error) (s s' : S) {u : Unit {0}}
    → throw_if b e s ≡ ok (u, s')
    → (b ≡ false) × (s' ≡ s)
throw_if_ok true e s s' h = cc
throw_if_ok false e s s' h = (refl, ap (λ p. p.1) (ok_inj h))

pub lift_ok :
    {S A : Type 0} (r : Result A) (s s' : S) {a : A} → lift r s ≡ ok (a, s') → (r ≡ ok a) × (s' ≡ s)
lift_ok (ok a) s s' h = (ap (λ p. ok p.0) (sym (ok_inj h)), ap (λ p. p.1) (ok_inj h))
lift_ok (err e) s s' h = cc

continues :
    {S A B : Type 0} (r : Result (A × S)) (f : A → Tx S B) (a : A) (t : S)
    → r ≡ ok (a, t)
    → elim r as (λ _. Result (B × S)) [ ok (a, t) ↦ f a t | err e ↦ err e ] ≡ f a t
continues r f a t h = rw h refl

-- A sequence goes on where its first step leads.
pub bind_runs :
    {S A B : Type 0} (m : Tx S A) (f : A → Tx S B) (s : S) {a : A} {t : S}
    → m s ≡ ok (a, t)
    → (m >>= f) s ≡ f a t
bind_runs m f s {a} {t} h = continues (m s) f a t h
