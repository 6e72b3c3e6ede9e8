-- ===== src/Wallet/Pin.antt =====
-- `verifyPin` of PinService (backend/src/modules/auth/pin.service.ts): its UPDATEs stand in one
-- transaction with the errors that it throws.
use quata_trade.Prelude.{
  ℕ, ◌+◌, ◌*◌, Bool, true, false, not, ◌||◌, Option, none, some, ltb, leb, if◌then◌else◌,
}
use quata_trade.Errors.{pin_not_set, pin_locked, invalid_pin}
use quata_trade.Tx.{err, Tx, Service, pure, throw, modify, ◌>>◌, execute}
use quata_trade.Db.{Db, User, audit_pin_locked}
use quata_trade.Tables.{find_user, update_user, audit}

abbrev pub max_pin_attempts : ℕ
max_pin_attempts = 5

abbrev pub pin_lock_ms : ℕ
pin_lock_ms = 15 * 60_000

abbrev pub is_pin_locked : Option ℕ → ℕ → Bool
is_pin_locked none now = false
is_pin_locked (some until) now = ltb now until

abbrev pub has_been_locked : Option ℕ → Bool
has_been_locked none = false
has_been_locked (some until) = true

abbrev pub set_user : ℕ → (User → User) → Tx Db (Unit {0})
set_user id set = modify λ db. record db { users = update_user id set db.users }

-- The right PIN clears the count and the lock.
unfoldable pub pin_accepted : User → Tx Db (Unit {0})
pin_accepted u =
    if ltb 0 u.pin_attempts || has_been_locked u.pin_locked_until
    then set_user u.id (λ r. record r { pin_attempts = 0; pin_locked_until = none })
    else pure tt

-- A wrong one is counted, and the fifth locks.
unfoldable pub pin_refused : ℕ → User → Tx Db (Unit {0})
pin_refused now u = do
  set_user u.id (λ r. record r { pin_attempts = r.pin_attempts + 1 })
  if leb max_pin_attempts (u.pin_attempts + 1)
      then (do
        set_user u.id
            (λ r. record r { pin_attempts = 0; pin_locked_until = some (now + pin_lock_ms) })
        audit (audit_pin_locked u.id)
        throw pin_locked)
      else throw invalid_pin

-- `matches` is what argon2 says of the PIN.
unfoldable pub verify_pin_tx : ℕ → ℕ → Bool → Tx Db (Unit {0})
verify_pin_tx now user_id matches db = elim (find_user user_id db.users) [
  | none ↦ err pin_not_set
  | some u ↦
      if not u.has_pin
      then err pin_not_set
      else if is_pin_locked u.pin_locked_until now
      then err pin_locked
      else if matches
      then pin_accepted u db
      else pin_refused now u db
]

unfoldable pub verify_transaction_pin : ℕ → ℕ → Bool → Service Db (Unit {0})
verify_transaction_pin now user_id matches = execute (verify_pin_tx now user_id matches)
