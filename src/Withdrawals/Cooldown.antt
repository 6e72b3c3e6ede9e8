-- ===== src/Withdrawals/Cooldown.antt =====
-- A saved destination waits before a withdrawal may go to it (`addAddress` and `request` of
-- WithdrawalsService, backend/src/modules/withdrawals/withdrawals.service.ts).
use quata_trade.Prelude.{
  ℕ, ◌+◌, ◌*◌, ◌≤◌, ◌<◌, ◌≡◌, sym, ◌∙◌, ap, true, not, ◌&&◌, Option, none, some, List, [], ◌∷◌,
  ◌==◌, All, arith, Bool-cases, Option-cases, inl, inr,
}
use quata_trade.Domain.{AssetCode}
use quata_trade.Errors.{PgCode}
use quata_trade.Tx.{Result-cases, gets}
use quata_trade.Tx.Preserves.{Preserves, preserves_rules, execute-keeps}
use quata_trade.Db.{Db, User, WithdrawalAddress}
use quata_trade.Tables.{find_user, new_id}
use quata_trade.Withdrawals.Factors.{verify_totp, verify_pin}
use quata_trade.Withdrawals.Untouched.{totp_keeps, pin_keeps}
use quata_trade.Withdrawals.Secrets.{find_user-id}
use quata_trade.Withdrawals.Request.{
  WithdrawalRequest, Outside, find_by_key, is_saved, find_address, check_account, check_destination,
  request_checked, request_new, request,
}
use quata_trade.Withdrawals.Whitelist.{
  AddAddress, AddressTerms, insert_address, save_address, new_address, add_address_steps,
  add_address, delete_address, remove_address,
}
use quata_trade.Withdrawals.Refused.{
  IsRefused, and_then-IsRefused, whitelist-IsRefused, unsaved-IsRefused, checked-IsRefused,
}

pub data WhitelistCall : Type 0 where
  adding : AddressTerms → ℕ → AddAddress → WhitelistCall
  removing : ℕ → ℕ → WhitelistCall

unfoldable pub run_whitelist : List WhitelistCall → Db → Db
run_whitelist [] db = db
run_whitelist (adding t user_id dto ∷ calls) db =
    run_whitelist calls (add_address t user_id dto db).1
run_whitelist (removing user_id id ∷ calls) db =
    run_whitelist calls (remove_address user_id id db).1

-- A call from `start` on, with a cooldown of `minutes` or longer.
abbrev pub IsLater : ℕ → ℕ → WhitelistCall → Type 0
IsLater start minutes (adding t user_id dto) = (start ≤ t.now) × (minutes ≤ t.new_address_minutes)
IsLater start minutes (removing user_id id) = Unit

module _ (user : ℕ) (asset : AssetCode) (address until : ℕ) where
  -- Every row for the destination is usable from `until` at the earliest.
  abbrev Waits : List WithdrawalAddress → Type 0
  Waits = All (λ a. is_saved user asset address a ≡ true → until ≤ a.usable_at)

  absent-Waits :
      (rows : List WithdrawalAddress) → find_address user asset address rows ≡ none → Waits rows
  unfolding find_address
  absent-Waits [] h = tt
  absent-Waits (a ∷ rows) h = elim (Bool-cases (is_saved user asset address a)) [
    | inl here ↦ cc (rw here at h)
    | inr other ↦ ((λ h'. cc), absent-Waits rows (rw other at h))
  ]

  found-Waits :
      (rows : List WithdrawalAddress) {a : WithdrawalAddress}
      → Waits rows
      → find_address user asset address rows ≡ some a
      → until ≤ a.usable_at
  unfolding find_address
  found-Waits [] w h = cc
  found-Waits (b ∷ rows) {a} w h = elim (Bool-cases (is_saved user asset address b)) [
    | inl here ↦ let same : b ≡ a = cc (rw here at h) in rw (sym same) (w.0 here)
    | inr other ↦ found-Waits rows w.1 (rw other at h)
  ]

  delete-Waits :
      (owner id : ℕ) (rows : List WithdrawalAddress)
      → Waits rows
      → Waits (delete_address owner id rows)
  unfolding delete_address
  delete-Waits owner id [] w = tt
  delete-Waits owner id (a ∷ rows) w =
      elim (Bool-cases (not ((a.id == id) && (a.user_id == owner)))) [
        | inl kept ↦ rw kept (w.0, delete-Waits owner id rows w.1)
        | inr gone ↦ rw gone (delete-Waits owner id rows w.1)
      ]

  WaitsIn : Db → Type 0
  WaitsIn db = Waits db.withdrawal_addresses

  save-Waits :
      (row : WithdrawalAddress) → until ≤ row.usable_at → Preserves WaitsIn (save_address row)
  unfolding WaitsIn save_address insert_address
  save-Waits row late = record {
    at = λ db w.
        elim (Option-cases
          (find_address row.user_id row.asset row.address db.withdrawal_addresses)) [
            | inl free ↦ rw (free, save_address, insert_address) ((λ h. late), w)
            | inr (other, taken) ↦ rw (taken, save_address, insert_address) tt
          ];
  }

  id-Waits : Preserves WaitsIn new_id
  unfolding WaitsIn new_id
  id-Waits = record { at = λ db w. w }

  gets-Waits : {A : Type 0} (f : Db → A) → Preserves WaitsIn (gets f)
  gets-Waits f = record { at = λ db w. w }

  add-Waits :
      (t : AddressTerms) (owner : ℕ) (dto : AddAddress)
      → until ≤ t.now + t.new_address_minutes * 60_000
      → Preserves WaitsIn (add_address_steps t owner dto)
  unfolding add_address_steps
  add-Waits t owner dto late =
      search
        (
          preserves_rules,
          gets-Waits,
          id-Waits,
          λ (id : ℕ). save-Waits (new_address t owner dto id) late,
        )
        depth 16

  add_address-Waits :
      (t : AddressTerms) (owner : ℕ) (dto : AddAddress) (db : Db)
      → until ≤ t.now + t.new_address_minutes * 60_000
      → Waits db.withdrawal_addresses
      → Waits (add_address t owner dto db).1.withdrawal_addresses
  unfolding add_address WaitsIn
  add_address-Waits t owner dto db late w =
      execute-keeps (add_address_steps t owner dto) db (add-Waits t owner dto late) w

-- The destination waits whatever calls follow, at this time or later.
run-Waits :
    (user : ℕ) (asset : AssetCode) (address start minutes : ℕ) (calls : List WhitelistCall)
    (db : Db)
    → All (IsLater start minutes) calls
    → Waits user asset address (start + minutes * 60_000) db.withdrawal_addresses
    → Waits user asset address
        (start + minutes * 60_000)
        (run_whitelist calls db).withdrawal_addresses
unfolding run_whitelist remove_address
run-Waits user asset address start minutes [] db later w = w
run-Waits user asset address start minutes (adding t owner dto ∷ calls) db later w =
    run-Waits user asset address start minutes calls _ later.1 (
      add_address-Waits user asset address (start + minutes * 60_000) t owner dto db
        (omega (arith, later.0.0, later.0.1)) w)
run-Waits user asset address start minutes (removing owner id ∷ calls) db later w =
    run-Waits user asset address start minutes calls _ later.1 (
      delete-Waits user asset address (start + minutes * 60_000) owner id db.withdrawal_addresses w)

still_early : (now until usable : ℕ) → now < until → until ≤ usable → now < usable
still_early now until usable h k = omega arith

destination-IsRefused :
    (o : Outside) (user : User) (dto : WithdrawalRequest) (db : Db) (until : ℕ)
    → o.now < until
    → Waits user.id dto.asset dto.to_address until db.withdrawal_addresses
    → IsRefused (check_destination o user dto db)
destination-IsRefused o user dto db until early w = unsaved-IsRefused o user dto db (
    whitelist-IsRefused o.now _ (λ a found.
      still_early o.now until a.usable_at early
        (found-Waits user.id dto.asset dto.to_address until db.withdrawal_addresses w found)))

new-IsRefused :
    (aborts : ℕ → Option PgCode) (o : Outside) (user : User) (dto : WithdrawalRequest) (until : ℕ)
    (db : Db)
    → o.now < until
    → Waits user.id dto.asset dto.to_address until db.withdrawal_addresses
    → IsRefused (request_new aborts o user dto db).0
unfolding request_new
new-IsRefused aborts o user dto until db early w = elim (Result-cases (check_account user)) [
  | inr (x, e) ↦ rw (e, request_new) tt
  | inl (u, e) ↦
      let after_totp : Db = (verify_totp user o.totp_step db).1 in
      let after_pin : Db = (verify_pin user o.now o.pin_matches after_totp).1 in
      let same : after_pin.withdrawal_addresses ≡ db.withdrawal_addresses =
        ap (λ t. t.withdrawal_addresses) (pin_keeps user o.now o.pin_matches after_totp)
        ∙ ap (λ t. t.withdrawal_addresses) (totp_keeps user o.totp_step db) in
      let still : Waits user.id dto.asset dto.to_address until after_pin.withdrawal_addresses =
        rw same w in
      rw (e, request_new)
        (and_then-IsRefused (verify_totp user o.totp_step) _ db (
          and_then-IsRefused (verify_pin user o.now o.pin_matches)
            (request_checked aborts o user dto) after_totp
            (checked-IsRefused o user dto aborts after_pin
              (destination-IsRefused o user dto after_pin until early still))))
]

-- A destination that the user has not saved at `start` is out of reach for the whole cooldown:
-- whatever calls add and remove addresses from then on, each with a cooldown of that many minutes
-- or more, a request to it under a new key is refused until the time is over, whatever the codes,
-- the settings and the screening say.
pub new_destination_waits :
    (calls : List WhitelistCall) (start minutes user_id : ℕ) (aborts : ℕ → Option PgCode)
    (o : Outside) (dto : WithdrawalRequest) (db : Db)
    → find_address user_id dto.asset dto.to_address db.withdrawal_addresses ≡ none
    → All (IsLater start minutes) calls
    → o.now < start + minutes * 60_000
    → find_by_key dto.idempotency_key (run_whitelist calls db).withdrawals ≡ none
    → IsRefused (request aborts o user_id dto (run_whitelist calls db)).0
unfolding request
new_destination_waits calls start minutes user_id aborts o dto db absent later early fresh =
    let db' : Db = run_whitelist calls db in
    let until : ℕ = start + minutes * 60_000 in
    elim (Bool-cases o.withdrawals_paused) [
      | inl paused ↦ rw (paused, request) tt
      | inr running ↦ elim (Option-cases (find_user user_id db'.users)) [
        | inl unknown ↦ rw (running, fresh, unknown, request) tt
        | inr (user, found) ↦
            rw (running, fresh, found, request)
              (new-IsRefused aborts o user dto until db' early (
                rw (find_user-id user_id db'.users found) (
                  run-Waits user_id dto.asset dto.to_address start minutes calls db later (
                    absent-Waits user_id dto.asset dto.to_address until db.withdrawal_addresses
                      absent))))
      ]
    ]
