-- ===== src/Withdrawals/Untouched.antt =====
-- The second factors of a withdrawal (`verifyTotp` and `verifyPin` of WithdrawalsService,
-- backend/src/modules/withdrawals/withdrawals.service.ts) leave the other tables alone.
use quata_trade.Prelude.{
  ℕ, ◌≡◌, refl, Bool, true, false, not, ◌||◌, Option, none, some, Bool-cases, Option-cases, inl,
  inr, ltb,
}
use quata_trade.Db.{Db, User}
use quata_trade.Tables.{find_user}
use quata_trade.Withdrawals.Factors.{
  is_locked, is_fresh_step, has_lock, consume_step, accept_step, verify_totp, count_pin, verify_pin,
}

-- The second factors write to users only.
step_keeps :
    (id : ℕ) (step : Option ℕ) (db : Db)
    → (accept_step id step db).1 ≡ record db { users = (accept_step id step db).1.users }
unfolding accept_step consume_step
step_keeps id none db = refl
step_keeps id (some n) db = elim (Option-cases (find_user id db.users)) [
  | inl absent ↦ rw (absent, consume_step) refl
  | inr (row, found) ↦ elim (Bool-cases (is_fresh_step row.totp_last_step n)) [
    | inl fresh ↦ rw (found, fresh, consume_step) refl
    | inr used ↦ rw (found, used, consume_step) refl
  ]
]

pub totp_keeps :
    (user : User) (step : Option ℕ) (db : Db)
    → (verify_totp user step db).1 ≡ record db { users = (verify_totp user step db).1.users }
unfolding verify_totp
totp_keeps user step db = elim (Bool-cases user.has_totp_secret) [
  | inr unset ↦ simp unset refl
  | inl given ↦ simp given (step_keeps user.id step db)
]

count_keeps :
    (user : User) (now : ℕ) (matches : Bool) (db : Db)
    → (count_pin user now matches db).1
      ≡ record db { users = (count_pin user now matches db).1.users }
unfolding count_pin
count_keeps user now false db = refl
count_keeps user now true db =
    elim (Bool-cases (ltb 0 user.pin_attempts || has_lock user.pin_locked_until)) [
      | inl stale ↦ rw (stale, count_pin) refl
      | inr clean ↦ rw (clean, count_pin) refl
    ]

pub pin_keeps :
    (user : User) (now : ℕ) (matches : Bool) (db : Db)
    → (verify_pin user now matches db).1
      ≡ record db { users = (verify_pin user now matches db).1.users }
unfolding verify_pin
pin_keeps user now matches db =
    elim (Bool-cases (not user.has_pin || is_locked user.pin_locked_until now)) [
      | inl shut ↦ rw (shut, verify_pin) refl
      | inr open_ ↦ rw (open_, verify_pin) (count_keeps user now matches db)
    ]
