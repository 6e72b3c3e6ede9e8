-- ===== src/Withdrawals/Whitelist.antt =====
-- `addAddress` and `removeAddress` of WithdrawalsService
-- (backend/src/modules/withdrawals/withdrawals.service.ts) on the saved destinations of a user.
use quata_trade.Prelude.{
  ℕ, ◌+◌, ◌*◌, Bool, true, not, ◌&&◌, Option, none, some, String, List, ◌∷◌, ◌==◌, contains, filter,
}
use quata_trade.Domain.{AssetCode}
use quata_trade.Errors.{
  Error, pg, unique_violation, invalid_withdrawal_address, not_tron_address, platform_address,
  address_blocked, withdrawal_address_exists,
}
use quata_trade.Tx.{ok, err, Tx, Service, throw_if, gets, execute, ◌>>=◌, ◌>>◌}
use quata_trade.Db.{Db, WithdrawalAddress}
use quata_trade.Escrow.{is_some}
use quata_trade.Tables.{new_id}
use quata_trade.Withdrawals.Request.{find_address}

pub record AddAddress : Type 0 where
  pub asset : AssetCode
  pub address : ℕ
  pub label : Option String

-- What TronWeb, the screening and the settings (`newAddressMinutes`) answer, and the clock.
pub record AddressTerms : Type 0 where
  pub now : ℕ
  pub is_tron_address : Bool
  pub is_screened_out : Bool
  pub new_address_minutes : ℕ

-- The INSERT, with its UNIQUE key.
unfoldable pub insert_address : WithdrawalAddress → Tx Db WithdrawalAddress
insert_address row db =
    elim (find_address row.user_id row.asset row.address db.withdrawal_addresses) [
      | some other ↦ err (pg unique_violation)
      | none ↦ ok (row, record db { withdrawal_addresses = row ∷ db.withdrawal_addresses })
    ]

-- `isUniqueViolation`, and what is thrown in its place.
unfoldable pub as_conflict : Error → Error
as_conflict (pg unique_violation) = withdrawal_address_exists
as_conflict e = e

unfoldable pub save_address : WithdrawalAddress → Tx Db WithdrawalAddress
save_address row db = elim (insert_address row db) [
  | ok saved ↦ ok saved
  | err e ↦ err (as_conflict e)
]

abbrev pub new_address : AddressTerms → ℕ → AddAddress → ℕ → WithdrawalAddress
new_address t user_id dto id = record {
  id = id;
  user_id = user_id;
  asset = dto.asset;
  address = dto.address;
  label = dto.label;
  is_active = true;
  usable_at = t.now + t.new_address_minutes * 60_000;
  created_at = t.now;
}

unfoldable pub add_address_steps : AddressTerms → ℕ → AddAddress → Tx Db WithdrawalAddress
add_address_steps t user_id dto = do
  throw_if (not t.is_tron_address) (invalid_withdrawal_address not_tron_address)
  own ← gets (λ db. contains db.deposit_addresses dto.address)
  throw_if own (invalid_withdrawal_address platform_address)
  throw_if t.is_screened_out address_blocked
  existing ← gets (λ db. find_address user_id dto.asset dto.address db.withdrawal_addresses)
  throw_if (is_some existing) withdrawal_address_exists
  id ← new_id
  save_address (new_address t user_id dto id)

-- The one statement that writes is the last, so an error leaves the tables as they were.
unfoldable pub add_address : AddressTerms → ℕ → AddAddress → Service Db WithdrawalAddress
add_address t user_id dto = execute (add_address_steps t user_id dto)

unfoldable pub delete_address : ℕ → ℕ → List WithdrawalAddress → List WithdrawalAddress
delete_address user_id id rows = filter (λ a. not ((a.id == id) && (a.user_id == user_id))) rows

unfoldable pub remove_address : ℕ → ℕ → Service Db (Unit {0})
remove_address user_id id db =
    (ok tt, record db { withdrawal_addresses = delete_address user_id id db.withdrawal_addresses })
