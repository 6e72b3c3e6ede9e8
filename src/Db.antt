-- ===== src/Db.antt =====
-- The tables that the services share (backend/src/db/types.ts, backend/src/db/migrations), and the
-- ledger among them. Columns that no modelled code reads are left out (`short_ref`, `updated_at`,
-- `version` aside from balances), and so are the ids of rows of the append-only logs.
use quata_trade.Prelude.{ℕ, ℤ, String, Bool, Option, List}
use quata_trade.Domain.{
  AssetCode, TradeStatus, OfferStatus, OfferSide, WithdrawalStatus, DisputeStatus, DepositStatus,
  DisputeResolution, UserStatus,
}
use quata_trade.Ledger.{Ledger, Actor, Key}
use quata_trade.Tx.{ok, err, Tx}

pub record Trade : Type 0 where
  pub id : ℕ
  pub country : ℕ
  pub offer_id : ℕ
  pub seller_id : ℕ
  pub buyer_id : ℕ
  pub asset : AssetCode
  pub amount : ℕ
  pub price_xaf_per_unit : ℕ
  pub fiat_amount_xaf : ℕ
  pub payment_method : ℕ
  pub fee_bps : ℕ
  pub fee_amount : ℕ
  pub seller_fee_bps : ℕ
  pub seller_fee_amount : ℕ
  pub status : TradeStatus
  pub payment_deadline : Option ℕ
  pub completed_at : Option ℕ
  pub escrow_journal_id : Option ℕ
  pub release_journal_id : Option ℕ

pub record Offer : Type 0 where
  pub id : ℕ
  pub user_id : ℕ
  pub country : ℕ
  pub side : OfferSide
  pub asset : AssetCode
  pub price_xaf_per_unit : ℕ
  pub min_trade : ℕ
  pub max_trade : ℕ
  pub remaining : ℕ
  pub payment_methods : List ℕ
  pub status : OfferStatus

pub record TradeEvent : Type 0 where
  pub trade_id : ℕ
  pub from_status : Option TradeStatus
  pub to_status : TradeStatus
  pub actor : Actor
  pub metadata : Option String

pub record TradePayment : Type 0 where
  pub trade_id : ℕ
  pub reference : String
  pub sender_name : String
  pub sender_number : String
  pub proof_files : List String

pub record Withdrawal : Type 0 where
  pub id : ℕ
  pub user_id : ℕ
  pub asset : AssetCode
  pub to_address : ℕ
  pub amount : ℕ
  pub fee : ℕ
  pub status : WithdrawalStatus
  pub risk_score : ℕ
  pub approved_by : Option ℕ
  pub second_approver : Option ℕ
  pub tx_hash : Option ℕ
  pub failure_reason : Option String
  pub debit_journal_id : ℕ
  pub idempotency_key : Key
  pub created_at : ℕ

pub record Dispute : Type 0 where
  pub id : ℕ
  pub trade_id : ℕ
  pub opened_by : ℕ
  pub reason : String
  pub status : DisputeStatus
  pub resolution : Option DisputeResolution
  pub resolved_by : Option ℕ
  pub resolution_notes : Option String
  pub resolved_at : Option ℕ

pub record Evidence : Type 0 where
  pub dispute_id : ℕ
  pub submitted_by : ℕ
  pub kind : String
  pub files : List String
  pub note : Option String

pub record User : Type 0 where
  pub id : ℕ
  pub status : UserStatus
  pub country : ℕ
  pub kyc_tier : ℕ
  -- a citext address, as a number
  pub email : ℕ
  pub email_verified : Bool
  pub withdrawal_hold_until : Option ℕ
  -- `totp_enabled`, and whether a secret is stored
  pub totp_enabled : Bool
  pub has_totp_secret : Bool
  pub totp_last_step : Option ℕ
  pub has_pin : Bool
  pub pin_attempts : ℕ
  pub pin_locked_until : Option ℕ

-- Why a deposit is held or set aside.
pub data PolicyReason : Type 0 where
  below_minimum above_maximum above_user_balance above_daily_limit above_custody : PolicyReason
  duplicate_of : ℕ → PolicyReason

pub data HoldResolution : Type 0 where
  released_hold rejected_hold : HoldResolution

-- A row of `deposits`; the transaction and the sender are numbers.
pub record Deposit : Type 0 where
  pub id : ℕ
  pub user_id : ℕ
  pub asset : AssetCode
  pub tx_hash : ℕ
  pub log_index : ℕ
  pub amount : ℕ
  pub block_number : Option ℕ
  pub confirmations : ℕ
  pub status : DepositStatus
  pub credited_journal_id : Option ℕ
  pub from_address : Option ℕ
  pub aml_hold : Bool
  pub aml_reason : Option String
  pub fee : ℕ
  pub policy_hold : Bool
  pub policy_reason : Option PolicyReason
  pub hold_resolution : Option HoldResolution
  pub hold_resolution_reason : Option String
  pub hold_resolved_by : Option ℕ
  pub hold_resolved_at : Option ℕ
  pub created_at : ℕ
  pub updated_at : Option ℕ

-- A row of `withdrawal_addresses`, an address being a number.
pub record WithdrawalAddress : Type 0 where
  pub id : ℕ
  pub user_id : ℕ
  pub asset : AssetCode
  pub address : ℕ
  pub label : Option String
  pub is_active : Bool
  pub usable_at : ℕ
  pub created_at : ℕ

-- The events of the outbox, with the ids of their payloads.
pub data OutboxEvent : Type 0 where
  trade_opened : ℕ → Actor → OutboxEvent
  trade_moved : ℕ → TradeStatus → TradeStatus → Actor → OutboxEvent
  withdrawal_requested withdrawal_auto_approved withdrawal_rejected : ℕ → OutboxEvent
  withdrawal_broadcast withdrawal_confirmed withdrawal_failed : ℕ → OutboxEvent
  withdrawal_approved : ℕ → Option ℕ → Option ℕ → OutboxEvent
  dispute_opened : ℕ → ℕ → ℕ → OutboxEvent
  dispute_resolved_event : ℕ → DisputeResolution → ℕ → OutboxEvent
  -- the journal, the sender, the recipient, the amount
  internal_transferred : ℕ → ℕ → ℕ → ℕ → OutboxEvent
  deposit_duplicate_blocked : ℕ → ℕ → OutboxEvent
  aml_hit : ℕ → OutboxEvent
  deposit_held : ℕ → PolicyReason → OutboxEvent
  deposit_was_credited : ℕ → ℤ → ℕ → OutboxEvent
  deposit_was_orphaned : ℕ → OutboxEvent
  -- the deposit, the decision, the admin
  deposit_hold_decided : ℕ → HoldResolution → ℕ → OutboxEvent

pub data ApprovalStage : Type 0 where
  single first_of_two second_of_two : ApprovalStage

-- The rows of the audit log, by action.
pub data AuditEntry : Type 0 where
  audit_withdrawal_requested : ℕ → ℕ → AuditEntry
  -- the admin, the withdrawal, the amount
  audit_withdrawal_approve : ℕ → ℕ → ℕ → ApprovalStage → AuditEntry
  audit_withdrawal_reject : ℕ → ℕ → AuditEntry
  audit_withdrawal_confirmed audit_withdrawal_failed : ℕ → AuditEntry
  audit_dispute_opened audit_dispute_resolved : ℕ → ℕ → AuditEntry
  audit_pin_locked : ℕ → AuditEntry
  audit_internal_transfer : ℕ → ℕ → ℕ → AuditEntry
  audit_deposit_credited : ℕ → ℤ → ℕ → AuditEntry
  audit_hold_decided : ℕ → HoldResolution → ℕ → AuditEntry

pub record Db : Type 0 where
  pub ledger : Ledger
  pub trades : List Trade
  pub offers : List Offer
  pub trade_events : List TradeEvent
  pub trade_payments : List TradePayment
  pub withdrawals : List Withdrawal
  pub deposits : List Deposit
  pub disputes : List Dispute
  pub evidence : List Evidence
  pub users : List User
  pub withdrawal_addresses : List WithdrawalAddress
  -- the platform's deposit addresses
  pub deposit_addresses : List ℕ
  -- the codes of the countries that are enabled
  pub enabled_countries : List ℕ
  pub outbox : List OutboxEvent
  pub audit_log : List AuditEntry
  -- what `newId()` gives next to a row of these tables
  pub next_id : ℕ

-- A ledger transaction joined to the caller's.
unfoldable pub on_ledger : {A : Type 0} → Tx Ledger A → Tx Db A
on_ledger m db = elim (m db.ledger) [ ok (a, l) ↦ ok (a, record db { ledger = l }) | err e ↦ err e ]
