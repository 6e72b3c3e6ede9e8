-- ===== src/Domain.antt =====
-- The enumerations of shared/src/constants.ts, with the Boolean tests that the code makes on them.
use quata_trade.Prelude.{ℕ, Bool, true, false, ◌==◌}

pub data AssetCode : Type 0 where
  usdt_trc20 : AssetCode

pub data AccountKind : Type 0 where
  user_available user_escrow platform_treasury platform_hot platform_pending_sweep external :
      AccountKind

pub data EntryReason : Type 0 where
  deposit_credit withdrawal_debit withdrawal_fee escrow_lock escrow_release_buyer : EntryReason
  escrow_release_fee escrow_refund internal_transfer adjustment advertisement_fee : EntryReason
  dispute_fee : EntryReason

pub data TradeStatus : Type 0 where
  opened escrow_locked payment_submitted completed cancelled expired disputed : TradeStatus
  resolved_release resolved_refund : TradeStatus

pub data OfferStatus : Type 0 where
  active paused exhausted deleted : OfferStatus

pub data OfferSide : Type 0 where
  sell buy : OfferSide

pub data WithdrawalStatus : Type 0 where
  requested risk_hold pending_approval approved signing broadcast confirmed : WithdrawalStatus
  rejected failed : WithdrawalStatus

pub data DepositStatus : Type 0 where
  seen confirming credited orphaned ignored_dust : DepositStatus

pub data DisputeStatus : Type 0 where
  open_dispute awaiting_evidence under_review resolved : DisputeStatus

pub data DisputeResolution : Type 0 where
  release_to_buyer refund_to_seller : DisputeResolution

pub data AdminRole : Type 0 where
  super_admin finance_admin compliance_admin support_admin moderator auditor analyst : AdminRole

pub data UserStatus : Type 0 where
  active_user frozen suspended closed : UserStatus

-- The positions of the values in their lists, by which `===` on them is decided.
abbrev kind_index : AccountKind → ℕ
kind_index user_available = 0
kind_index user_escrow = 1
kind_index platform_treasury = 2
kind_index platform_hot = 3
kind_index platform_pending_sweep = 4
kind_index external = 5

abbrev status_index : TradeStatus → ℕ
status_index opened = 0
status_index escrow_locked = 1
status_index payment_submitted = 2
status_index completed = 3
status_index cancelled = 4
status_index expired = 5
status_index disputed = 6
status_index resolved_release = 7
status_index resolved_refund = 8

abbrev withdrawal_index : WithdrawalStatus → ℕ
withdrawal_index requested = 0
withdrawal_index risk_hold = 1
withdrawal_index pending_approval = 2
withdrawal_index approved = 3
withdrawal_index signing = 4
withdrawal_index broadcast = 5
withdrawal_index confirmed = 6
withdrawal_index rejected = 7
withdrawal_index failed = 8

abbrev pub kind_eq : AccountKind → AccountKind → Bool
kind_eq a b = kind_index a == kind_index b

abbrev pub asset_eq : AssetCode → AssetCode → Bool
asset_eq usdt_trc20 usdt_trc20 = true

unfoldable pub status_eq : TradeStatus → TradeStatus → Bool
status_eq a b = status_index a == status_index b

unfoldable pub withdrawal_status_eq : WithdrawalStatus → WithdrawalStatus → Bool
withdrawal_status_eq a b = withdrawal_index a == withdrawal_index b

abbrev pub is_external : AccountKind → Bool
is_external external = true
is_external _ = false
