-- ===== src/Withdrawals/Request.antt =====
-- `request` of WithdrawalsService (backend/src/modules/withdrawals/withdrawals.service.ts) with
-- `dailyWithdrawnAmount`. What the settings, the promotions, the
-- screening provider, TronWeb, otplib and argon2 answer is a record of arguments.
use quata_trade.Prelude.{
  ℕ, ◌+◌, ◌*◌, ◌-◌, pos, neg_ℤ, Bool, true, false, not, ◌&&◌, ◌||◌, Option, none, some, List, [],
  ◌∷◌, ◌==◌, ltb, leb, if◌then◌else◌, contains, length, filter,
}
use quata_trade.Domain.{
  WithdrawalStatus, risk_hold, pending_approval, approved, rejected, failed, AssetCode, asset_eq,
  active_user, UserStatus, user_available, platform_pending_sweep, withdrawal_debit,
}
use quata_trade.Errors.{
  PgCode, pg, raise_exception, unique_violation, withdrawals_paused, idempotency_conflict,
  withdrawal_not_eligible, not_active, email_unverified, kyc_required, totp_required, security_hold,
  invalid_withdrawal_address, not_tron_address, platform_address, not_approved, in_cooldown,
  withdrawal_cap_exceeded, per_transaction, daily, address_blocked,
}
use quata_trade.Tx.{
  Result, ok, err, Tx, Service, pure, throw_if, lift, gets, ◌>>=◌, ◌>>◌, with_money_transaction,
}
use quata_trade.Ledger.{
  user_actor, Key, key_eq, withdrawal_ref, get_or_create_account, post_journal,
}
use quata_trade.Fees.{Number, compute_fee}
use quata_trade.Risk.{score_withdrawal_risk, risk_hold_score}
use quata_trade.Db.{
  Db, User, Withdrawal, WithdrawalAddress, on_ledger, withdrawal_requested,
  withdrawal_auto_approved, audit_withdrawal_requested,
}
use quata_trade.Withdrawals.Factors.{is_locked, verify_totp, verify_pin}
use quata_trade.Withdrawals.Rows.{dual_approved, is_released}
use quata_trade.Tables.{find_user, new_id, enqueue_outbox, audit}

pub record WithdrawalRequest : Type 0 where
  pub asset : AssetCode
  pub amount : ℕ
  pub to_address : ℕ
  pub idempotency_key : Key

-- The answers from outside this service.
pub record Outside : Type 0 where
  pub withdrawals_paused : Bool
  pub now : ℕ
  pub start_of_day : ℕ
  -- `matchedTotpStep`, and `argon2.verify`
  pub totp_step : Option ℕ
  pub pin_matches : Bool
  pub is_tron_address : Bool
  pub is_screened_out : Bool
  pub fee_fixed : ℕ
  pub fee_bps : Number
  pub fee_waived : Bool
  pub per_tx_max : ℕ
  pub daily_max : ℕ
  pub auto_approve_below : ℕ
  pub dual_approval_threshold : ℕ
  pub tier_daily_withdrawal : ℕ → ℕ

unfoldable pub find_by_key : Key → List Withdrawal → Option Withdrawal
find_by_key key [] = none
find_by_key key (w ∷ ws) = if key_eq w.idempotency_key key then some w else find_by_key key ws

-- Counted for the caps and for the risk: everything that is not REJECTED or FAILED.
abbrev pub counts : WithdrawalStatus → Bool
counts rejected = false
counts failed = false
counts _ = true

unfoldable pub daily_withdrawn_amount : ℕ → ℕ → List Withdrawal → ℕ
daily_withdrawn_amount user start [] = 0
daily_withdrawn_amount user start (w ∷ ws) =
    let rest = daily_withdrawn_amount user start ws in
    if (w.user_id == user) && leb start w.created_at && counts w.status
    then w.amount + rest
    else rest

unfoldable pub prior_count : ℕ → List Withdrawal → ℕ
prior_count user ws = length (filter (λ w. (w.user_id == user) && counts w.status) ws)

unfoldable pub recent_count : ℕ → ℕ → List Withdrawal → ℕ
recent_count user since ws = length (filter (λ w. (w.user_id == user) && leb since w.created_at) ws)

-- The row of this user for this address, of which UNIQUE (user_id, asset, address) allows one.
abbrev pub is_saved : ℕ → AssetCode → ℕ → WithdrawalAddress → Bool
is_saved user asset address a =
    (a.user_id == user) && asset_eq a.asset asset && (a.address == address)

unfoldable pub find_address : ℕ → AssetCode → ℕ → List WithdrawalAddress → Option WithdrawalAddress
find_address user asset address [] = none
find_address user asset address (a ∷ rows) =
    if is_saved user asset address a then some a else find_address user asset address rows

-- The status that the policy gives, and whether it is an automatic approval.
unfoldable pub initial_status : Outside → ℕ → ℕ → WithdrawalStatus × Bool
initial_status o score amount =
    if leb risk_hold_score score
    then (risk_hold, false)
    else if ltb amount o.auto_approve_below && ltb amount o.dual_approval_threshold
    then (approved, true)
    else (pending_approval, false)

-- The charge: the fixed fee and the share of the amount, or nothing where a promotion waives it.
unfoldable pub withdrawal_charge : Outside → ℕ → Result ℕ
withdrawal_charge o amount = elim o.fee_waived [
  | true ↦ ok 0
  | false ↦ elim (compute_fee (pos amount) o.fee_bps) [
    | ok fee ↦ ok (o.fee_fixed + fee)
    | err e ↦ err e
  ]
]

abbrev pub is_active_user : UserStatus → Bool
is_active_user active_user = true
is_active_user _ = false

-- The checks on the account before the second factors.
unfoldable pub check_account : User → Result (Unit {0})
check_account user =
    if not (is_active_user user.status)
    then err (withdrawal_not_eligible not_active)
    else if not user.email_verified
    then err (withdrawal_not_eligible email_unverified)
    else if ltb user.kyc_tier 1
    then err (withdrawal_not_eligible kyc_required)
    else if not user.totp_enabled || not user.has_totp_secret
    then err (withdrawal_not_eligible totp_required)
    else ok tt

unfoldable pub check_whitelist : ℕ → Option WithdrawalAddress → Result (Unit {0})
check_whitelist now none = err (invalid_withdrawal_address not_approved)
check_whitelist now (some a) =
    if not a.is_active
    then err (invalid_withdrawal_address not_approved)
    else if ltb now a.usable_at
    then err (invalid_withdrawal_address in_cooldown)
    else ok tt

-- The checks on the destination after the second factors.
unfoldable pub check_destination : Outside → User → WithdrawalRequest → Tx Db (Unit {0})
check_destination o user dto = do
  throw_if (not o.is_tron_address) (invalid_withdrawal_address not_tron_address)
  own ← gets (λ db. contains db.deposit_addresses dto.to_address)
  throw_if own (invalid_withdrawal_address platform_address)
  throw_if (is_locked user.withdrawal_hold_until o.now) (withdrawal_not_eligible security_hold)
  saved ← gets (λ db. find_address user.id dto.asset dto.to_address db.withdrawal_addresses)
  lift (check_whitelist o.now saved)
  throw_if o.is_screened_out address_blocked

abbrev pub min_limit : ℕ → ℕ → ℕ
min_limit a b = if ltb a b then a else b

-- The INSERT, with the trigger on it and the UNIQUE key.
unfoldable pub insert_withdrawal : ℕ → Withdrawal → Tx Db (Unit {0})
insert_withdrawal threshold w db =
    if is_released w.status && not (dual_approved threshold w)
    then err (pg raise_exception)
    else elim (find_by_key w.idempotency_key db.withdrawals) [
      | some other ↦ err (pg unique_violation)
      | none ↦ ok (tt, record db { withdrawals = w ∷ db.withdrawals })
    ]

-- A key that owns a journal already: only the user's own withdrawal makes this a replay.
unfoldable pub replay_request : ℕ → Key → Tx Db Withdrawal
replay_request user_id key db = elim (find_by_key key db.withdrawals) [
  | none ↦ err idempotency_conflict
  | some raced ↦ if raced.user_id == user_id then ok (raced, db) else err idempotency_conflict
]

unfoldable pub record_request :
    Outside → User → WithdrawalRequest → ℕ → ℕ → ℕ → WithdrawalStatus × Bool → ℕ → Tx Db Withdrawal
record_request o user dto fee score id (status, auto_approved) journal_id = do
  let w : Withdrawal = record {
    id = id;
    user_id = user.id;
    asset = dto.asset;
    to_address = dto.to_address;
    amount = dto.amount;
    fee = fee;
    status = status;
    risk_score = score;
    approved_by = none;
    second_approver = none;
    tx_hash = none;
    failure_reason = none;
    debit_journal_id = journal_id;
    idempotency_key = dto.idempotency_key;
    created_at = o.now;
  }
  insert_withdrawal o.dual_approval_threshold w
  enqueue_outbox (withdrawal_requested id)
  if auto_approved then enqueue_outbox (withdrawal_auto_approved id) else pure tt
  audit (audit_withdrawal_requested user.id id)
  pure w

-- From the accounts on: the debit, and what records it.
unfoldable pub debit_request : Outside → User → WithdrawalRequest → ℕ → ℕ → Tx Db Withdrawal
debit_request o user dto fee score = do
  let total = dto.amount + fee
  available ← on_ledger (get_or_create_account (some user.id) user_available dto.asset)
  pending_sweep ← on_ledger (get_or_create_account none platform_pending_sweep dto.asset)
  id ← new_id
  journal ← on_ledger (
      post_journal (record {
        reason = withdrawal_debit;
        reference_type = withdrawal_ref;
        reference_id = id;
        idempotency_key = dto.idempotency_key;
        created_by = user_actor user.id;
        asset = dto.asset;
        legs =
            record { account_id = available; amount = neg_ℤ (pos total) }
            ∷ record { account_id = pending_sweep; amount = pos total }
            ∷ [];
      }))
  if journal.replayed
      then replay_request user.id dto.idempotency_key
      else record_request o user dto fee score id (initial_status o score dto.amount)
          journal.journal_id

-- The daily cap on top of what was used today, and the risk.
unfoldable pub capped_request : Outside → User → WithdrawalRequest → ℕ → ℕ → Tx Db Withdrawal
capped_request o user dto fee used_today = do
  let tier = o.tier_daily_withdrawal user.kyc_tier
  throw_if (ltb (min_limit o.daily_max tier) (used_today + dto.amount))
      (withdrawal_cap_exceeded daily)
  prior ← gets (λ db. prior_count user.id db.withdrawals)
  recent ← gets (λ db. recent_count user.id (o.now - 24 * 3_600_000) db.withdrawals)
  let risk = score_withdrawal_risk (record {
    amount = dto.amount;
    tier_daily_limit = tier;
    prior_withdrawal_count = prior;
    attempts_last_24h = recent;
  })
  debit_request o user dto fee risk.score

-- The body of the money transaction.
unfoldable pub request_tx : Outside → User → WithdrawalRequest → ℕ → Tx Db Withdrawal
request_tx o user dto fee = do
  used_today ← gets (λ db. daily_withdrawn_amount user.id o.start_of_day db.withdrawals)
  capped_request o user dto fee used_today

-- From the destination on: the checks that only read, the fee, and the transaction.
unfoldable pub request_checked :
    (ℕ → Option PgCode) → Outside → User → WithdrawalRequest → Service Db Withdrawal
request_checked aborts o user dto db = elim (check_destination o user dto db) [
  | err e ↦ (err e, db)
  | ok (u, db') ↦ elim (withdrawal_charge o dto.amount) [
    | err e ↦ (err e, db)
    | ok fee ↦
        if ltb o.per_tx_max dto.amount
        then (err (withdrawal_cap_exceeded per_transaction), db)
        else with_money_transaction aborts (request_tx o user dto fee) db
  ]
]

-- One service call after another, if it went well.
unfoldable pub and_then : {A : Type 0} → Service Db (Unit {0}) → Service Db A → Service Db A
and_then m k db = let (r, db') = m db in elim r [ ok u ↦ k db' | err e ↦ (err e, db') ]

unfoldable pub request_new :
    (ℕ → Option PgCode) → Outside → User → WithdrawalRequest → Service Db Withdrawal
request_new aborts o user dto db = elim (check_account user) [
  | err e ↦ (err e, db)
  | ok u ↦
      and_then (verify_totp user o.totp_step)
        (and_then (verify_pin user o.now o.pin_matches) (request_checked aborts o user dto)) db
]

unfoldable pub request :
    (ℕ → Option PgCode) → Outside → ℕ → WithdrawalRequest → Service Db Withdrawal
request aborts o user_id dto db =
    if o.withdrawals_paused
    then (err withdrawals_paused, db)
    else elim (find_by_key dto.idempotency_key db.withdrawals) [
      | some existing ↦
          if not (existing.user_id == user_id)
          then (err idempotency_conflict, db)
          else (ok existing, db)
      | none ↦ elim (find_user user_id db.users) [
        | none ↦ (err (withdrawal_not_eligible not_active), db)
        | some user ↦ request_new aborts o user dto db
      ]
    ]
