-- ===== src/Wallet.antt =====
-- `walletStatus` and `internalTransfer` of WalletService (backend/src/modules/wallet/wallet.service.ts)
-- with the PIN service behind them (Pin).
pub mod Pin
pub mod Guesses
pub mod Transfer
use quata_trade.Prelude.{
  ℕ, pos, neg_ℤ, Bool, true, false, not, ◌||◌, Option, none, some, List, [], ◌∷◌, ◌==◌,
  if◌then◌else◌,
}
use quata_trade.Domain.{AssetCode, UserStatus, active_user, user_available, internal_transfer}
use quata_trade.Errors.{
  PgCode, pin_service_unavailable, pin_verification, account_restricted, transfer_failed,
}
use quata_trade.Tx.{Result, ok, err, Tx, Service, pure, ◌>>=◌, ◌>>◌, with_money_transaction}
use quata_trade.Ledger.{
  Key, JournalInput, JournalResult, word, uuid, user_actor, transfer_ref, get_or_create_account,
  post_journal,
}
use quata_trade.Db.{Db, User, on_ledger, internal_transferred, audit_internal_transfer}
use quata_trade.Tables.{find_user, new_id, enqueue_outbox, audit}
use quata_trade.Wallet.Pin.{verify_transaction_pin}

abbrev pub is_active_status : UserStatus → Bool
is_active_status active_user = true
is_active_status _ = false

abbrev pub is_active_row : Option User → Bool
is_active_row none = false
is_active_row (some u) = is_active_status u.status

-- "active", or else "restricted"
unfoldable pub wallet_status : ℕ → Db → Bool
wallet_status user_id db = is_active_row (find_user user_id db.users)

unfoldable pub find_by_email : ℕ → List User → Option User
find_by_email email [] = none
find_by_email email (u ∷ us) = if u.email == email then some u else find_by_email email us

-- The request; the PIN is in it as what argon2 says of it.
pub record TransferRequest : Type 0 where
  pub to_email : ℕ
  pub asset : AssetCode
  pub amount : ℕ
  pub pin_matches : Bool
  pub idempotency_key : Key

-- The key `internal_transfer:<user>:<key>`.
abbrev pub transfer_key : ℕ → Key → Key
transfer_key user_id key = word "internal_transfer" ∷ uuid user_id ∷ key

abbrev pub transfer_input : ℕ → ℕ → TransferRequest → ℕ → ℕ → JournalInput
transfer_input user_id transfer_id dto from_account to_account = record {
  reason = internal_transfer;
  reference_type = transfer_ref;
  reference_id = transfer_id;
  idempotency_key = transfer_key user_id dto.idempotency_key;
  created_by = user_actor user_id;
  asset = dto.asset;
  legs =
      record { account_id = from_account; amount = neg_ℤ (pos dto.amount) }
      ∷ record { account_id = to_account; amount = pos dto.amount }
      ∷ [];
}

-- The event and the audit row, unless the journal was there already.
unfoldable pub announce_transfer : ℕ → ℕ → TransferRequest → JournalResult → Tx Db JournalResult
announce_transfer user_id recipient_id dto r = if r.replayed then pure r else do
  enqueue_outbox (internal_transferred r.journal_id user_id recipient_id dto.amount)
  audit (audit_internal_transfer user_id recipient_id dto.amount)
  pure r

-- `newId()` is drawn first: nothing before it depends on it.
unfoldable pub transfer_tx : ℕ → ℕ → TransferRequest → Tx Db JournalResult
transfer_tx user_id recipient_id dto = do
  transfer_id ← new_id
  from_account ← on_ledger (get_or_create_account (some user_id) user_available dto.asset)
  to_account ← on_ledger (get_or_create_account (some recipient_id) user_available dto.asset)
  r ← on_ledger (post_journal (transfer_input user_id transfer_id dto from_account to_account))
  announce_transfer user_id recipient_id dto r

-- Unknown, own and inactive recipients are one error.
unfoldable pub transfer_to :
    (ℕ → Option PgCode) → ℕ → TransferRequest → Option User → Service Db JournalResult
transfer_to aborts user_id dto none db = (err transfer_failed, db)
transfer_to aborts user_id dto (some recipient) db =
    if recipient.id == user_id || not (is_active_status recipient.status)
    then (err transfer_failed, db)
    else with_money_transaction aborts (transfer_tx user_id recipient.id dto) db

unfoldable pub after_pin :
    (ℕ → Option PgCode) → ℕ → TransferRequest → Result (Unit {0}) × Db → Result JournalResult × Db
after_pin aborts user_id dto (err e, db) = (err pin_verification, db)
after_pin aborts user_id dto (ok u, db) =
    if not (is_active_row (find_user user_id db.users))
    then (err account_restricted, db)
    else transfer_to aborts user_id dto (find_by_email dto.to_email db.users) db

-- `pin_service` is false where no PIN service was injected.
unfoldable pub internal_transfer_to :
    (ℕ → Option PgCode) → Bool → ℕ → ℕ → TransferRequest → Service Db JournalResult
internal_transfer_to aborts pin_service now user_id dto db =
    if not pin_service
    then (err pin_service_unavailable, db)
    else after_pin aborts user_id dto (verify_transaction_pin now user_id dto.pin_matches db)
