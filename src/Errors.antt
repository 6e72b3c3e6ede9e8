-- ===== src/Errors.antt =====
-- The error classes of the services (`*.errors.ts` in backend/src/modules) as one data type, with
-- the reasons that the source passes as text as enumerations.
use quata_trade.Prelude.{ℕ, ℤ}
use quata_trade.Domain.{TradeStatus, WithdrawalStatus, AdminRole}

-- The SQLSTATE codes that the services look at.
pub data PgCode : Type 0 where
  serialization_failure deadlock_detected unique_violation raise_exception other_code : PgCode

pub data JournalFault : Type 0 where
  too_few_legs zero_leg short_key : JournalFault
  duplicate_account : ℕ → JournalFault

-- The texts that OfferUnavailableError is raised with.
pub data OfferFault : Type 0 where
  offer_not_found offer_status own_offer method_not_accepted amount_outside_limits : OfferFault
  insufficient_remaining market_disabled party_not_active cross_market tier_limit : OfferFault
  fiat_too_small account_not_active balance_does_not_back : OfferFault

pub data FeeFault : Type 0 where
  negative_amount bps_out_of_range negative_fixed_fee split_violated : FeeFault
  invalid_fiat_input invalid_asset_decimals : FeeFault

pub data EligibilityFault : Type 0 where
  not_active email_unverified kyc_required totp_required security_hold : EligibilityFault

pub data AddressFault : Type 0 where
  not_tron_address platform_address not_approved in_cooldown : AddressFault

pub data CapFault : Type 0 where
  per_transaction daily : CapFault

pub data Error : Type 0 where
  -- ledger.errors.ts
  insufficient_funds : ℕ → ℤ → ℤ → Error
  unbalanced_journal : ℤ → Error
  invalid_journal : JournalFault → Error
  unknown_account : ℕ → Error
  serialization_retry_exhausted : Error
  -- escrow.errors.ts
  trade_not_found : ℕ → Error
  illegal_transition : TradeStatus → TradeStatus → Error
  trades_paused : Error
  offer_unavailable : OfferFault → Error
  invalid_proof payment_already_submitted : Error
  -- fees.ts
  fee_error : FeeFault → Error
  -- withdrawals.errors.ts
  withdrawals_paused idempotency_conflict withdrawal_verification dual_approval : Error
  withdrawal_address_exists : Error
  withdrawal_not_found : ℕ → Error
  withdrawal_not_eligible : EligibilityFault → Error
  invalid_withdrawal_address : AddressFault → Error
  withdrawal_cap_exceeded : CapFault → Error
  illegal_withdrawal_state : WithdrawalStatus → Error
  approval_not_allowed : AdminRole → Error
  address_blocked : Error
  -- disputes.errors.ts
  dispute_not_found dispute_already_open dispute_resolved conflicting_resolution : Error
  invalid_evidence_file : Error
  -- wallet.errors.ts
  -- auth.errors.ts
  pin_not_set pin_locked invalid_pin : Error
  pin_service_unavailable pin_verification account_restricted transfer_failed : Error
  -- held-deposits.errors
  held_deposit_not_found : ℕ → Error
  held_deposit_already_resolved : Error
  -- what a call of a service outside the model throws
  service_unavailable : Error
  -- the framework's NotFoundException
  not_found : Error
  -- what the database driver throws
  pg : PgCode → Error
  no_result : Error
