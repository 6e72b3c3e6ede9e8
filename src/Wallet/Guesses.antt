-- ===== src/Wallet/Guesses.antt =====
-- Wrong guesses of a PIN (backend/src/modules/auth/pin.service.ts).
use quata_trade.Prelude.{
  ℕ, ◌+◌, ◌≡◌, refl, ap, ◌∙◌, Bool, false, Bool-cases, Option-cases, inl, inr, List, [], ◌∷◌, leb,
}
use quata_trade.Tx.{Result, ok, err, execute}
use quata_trade.Db.{Db, User}
use quata_trade.Tables.{find_user, audit}
use quata_trade.Wallet.Pin.{
  max_pin_attempts, is_pin_locked, pin_refused, verify_pin_tx, verify_transaction_pin,
}

-- Guesses at these times, each a wrong one.
unfoldable pub guess_wrong : List ℕ → ℕ → Db → Db
guess_wrong [] user_id db = db
guess_wrong (now ∷ nows) user_id db =
    guess_wrong nows user_id (verify_transaction_pin now user_id false db).1

abbrev Fails : {A : Type 0} → Result A → Type 0
Fails (ok a) = ⊥
Fails (err e) = Unit

refused-Fails : (now : ℕ) (u : User) (db : Db) → Fails (pin_refused now u db)
unfolding pin_refused audit
refused-Fails now u db = elim (Bool-cases (leb max_pin_attempts (u.pin_attempts + 1))) [
  | inl fifth ↦ simp (Fails, pin_refused, fifth) tt
  | inr early ↦ simp (Fails, pin_refused, early) tt
]

wrong-Fails : (now id : ℕ) (db : Db) → Fails (verify_pin_tx now id false db)
unfolding verify_pin_tx
wrong-Fails now id db = elim (Option-cases (find_user id db.users)) [
  | inl absent ↦ rw (absent, verify_pin_tx) tt
  | inr (u, found) ↦ elim (Bool-cases u.has_pin) [
    | inr unset ↦ rw (found, verify_pin_tx) (simp unset tt)
    | inl given ↦ elim (Bool-cases (is_pin_locked u.pin_locked_until now)) [
      | inl locked ↦ rw (found, verify_pin_tx) (simp (given, locked) tt)
      | inr free ↦ rw (found, verify_pin_tx) (simp (given, free) (refused-Fails now u db))
    ]
  ]
]

rolled_back :
    (r : Result (Unit {0} × Db)) (db : Db)
    → Fails r
    → (elim r as (λ _. Result (Unit {0}) × Db) [ ok (a, s') ↦ (ok a, s') | err e ↦ (err e, db) ]).1
      ≡ db
rolled_back (ok p) db h = absurd h
rolled_back (err e) db h = refl

wrong_forgotten : (now id : ℕ) (db : Db) → (verify_transaction_pin now id false db).1 ≡ db
unfolding verify_transaction_pin execute
wrong_forgotten now id db = rolled_back (verify_pin_tx now id false db) db (wrong-Fails now id db)

guesses_forgotten : (nows : List ℕ) (id : ℕ) (db : Db) → guess_wrong nows id db ≡ db
unfolding guess_wrong
guesses_forgotten [] id db = refl
guesses_forgotten (now ∷ nows) id db = guesses_forgotten nows id _ ∙ wrong_forgotten now id db

-- However many wrong guesses of the PIN come first, and whenever, nothing of them is kept: a guess
-- of the PIN answers as it would have without them.
pub wrong_guesses_never_lock :
    (nows : List ℕ) (now id : ℕ) (matches : Bool) (db : Db)
    → verify_transaction_pin now id matches (guess_wrong nows id db)
      ≡ verify_transaction_pin now id matches db
wrong_guesses_never_lock nows now id matches db =
    ap (verify_transaction_pin now id matches) (guesses_forgotten nows id db)
