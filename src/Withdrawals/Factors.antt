-- ===== src/Withdrawals/Factors.antt =====
-- `verifyTotp` and `verifyPin` of WithdrawalsService
-- (backend/src/modules/withdrawals/withdrawals.service.ts), from the answers of otplib and argon2 on.
use quata_trade.Prelude.{
  ℕ, ◌+◌, ◌*◌, Bool, true, false, not, ◌||◌, Option, none, some, ltb, leb, if◌then◌else◌,
}
use quata_trade.Errors.{withdrawal_verification}
use quata_trade.Tx.{ok, err, Service}
use quata_trade.Db.{Db, User}
use quata_trade.Tables.{find_user, update_user}

abbrev pub pin_max_attempts : ℕ
pin_max_attempts = 5

abbrev pub pin_lock_minutes : ℕ
pin_lock_minutes = 15

abbrev write_user : ℕ → (User → User) → Db → Db
write_user id set db = record db { users = update_user id set db.users }

-- `totp_last_step IS NULL OR totp_last_step < step`
abbrev pub is_fresh_step : Option ℕ → ℕ → Bool
is_fresh_step none step = true
is_fresh_step (some last) step = ltb last step

-- `UPDATE users SET totp_last_step = step WHERE id AND (… IS NULL OR … < step)`, committed by
-- itself, and the error where it matches no row.
unfoldable pub consume_step : ℕ → ℕ → Service Db (Unit {0})
consume_step id step db = elim (find_user id db.users) [
  | none ↦ (err withdrawal_verification, db)
  | some row ↦
      if is_fresh_step row.totp_last_step step
      then (ok tt, write_user id (λ u. record u { totp_last_step = some step }) db)
      else (err withdrawal_verification, db)
]

unfoldable pub accept_step : ℕ → Option ℕ → Service Db (Unit {0})
accept_step id none db = (err withdrawal_verification, db)
accept_step id (some step) db = consume_step id step db

unfoldable pub verify_totp : User → Option ℕ → Service Db (Unit {0})
verify_totp user step db =
    if not user.has_totp_secret
    then (err withdrawal_verification, db)
    else accept_step user.id step db

abbrev pub is_locked : Option ℕ → ℕ → Bool
is_locked none now = false
is_locked (some until) now = ltb now until

abbrev pub has_lock : Option ℕ → Bool
has_lock none = false
has_lock (some until) = true

-- A wrong PIN: the attempts are counted, and the PIN is locked at the fifth.
abbrev pub count_attempt : ℕ → User → User
count_attempt now u =
    if leb pin_max_attempts (u.pin_attempts + 1)
    then record u { pin_attempts = 0; pin_locked_until = some (now + pin_lock_minutes * 60_000) }
    else record u { pin_attempts = u.pin_attempts + 1 }

-- `verifyPin` once the PIN was compared; its UPDATEs are committed by themselves.
unfoldable pub count_pin : User → ℕ → Bool → Service Db (Unit {0})
count_pin user now true db =
    if ltb 0 user.pin_attempts || has_lock user.pin_locked_until
    then (
      ok tt,
      write_user user.id (λ u. record u { pin_attempts = 0; pin_locked_until = none }) db,
    )
    else (ok tt, db)
count_pin user now false db =
    (err withdrawal_verification, write_user user.id (count_attempt now) db)

unfoldable pub verify_pin : User → ℕ → Bool → Service Db (Unit {0})
verify_pin user now matches db =
    if not user.has_pin || is_locked user.pin_locked_until now
    then (err withdrawal_verification, db)
    else count_pin user now matches db
