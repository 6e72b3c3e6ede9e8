-- ===== src/Deposits.antt =====
-- DepositConfirmationService (backend/src/modules/deposits/deposit-confirmation.service.ts): the
-- crediting of one transfer of the chain. The passes over all of them and the sweep are in Passes,
-- the scanner in Scan, the review of held deposits in Held.
pub mod Rows
pub mod Policy
pub mod Passes
pub mod Held
pub mod Scan
pub mod Shown
pub mod Paying
pub mod Crediting
pub mod Gates
pub mod Calls
pub mod Balances
pub mod Barred
pub mod Rejected
pub mod Posting
pub mod Released
use quata_trade.Prelude.{
  ℕ, ℤ, pos, neg_ℤ, ◌-ℤ◌, Bool, true, false, not, ◌&&◌, Option, none, some, List, [], ◌∷◌, ltb,
  if◌then◌else◌, String,
}
use quata_trade.Domain.{
  credited, orphaned, AssetCode, external, user_available, platform_treasury, deposit_credit,
}
use quata_trade.Errors.{PgCode, service_unavailable}
use quata_trade.Tx.{
  Result, ok, err, Tx, Service, pure, lift, gets, ◌>>=◌, ◌>>◌, with_money_transaction,
}
use quata_trade.Ledger.{
  Key, JournalInput, JournalResult, Leg, word, num, hash, system, deposit_ref,
  get_or_create_account, post_journal,
}
use quata_trade.Fees.{compute_deposit_fee}
use quata_trade.Db.{
  Db, Deposit, HoldResolution, released_hold, rejected_hold, PolicyReason, duplicate_of, on_ledger,
  User, deposit_duplicate_blocked, aml_hit, deposit_held, deposit_was_credited,
  audit_deposit_credited,
}
use quata_trade.Tables.{enqueue_outbox, audit, find_user}
use quata_trade.Deposits.Rows.{is_pending, find_deposit, write_deposit, find_twin}
use quata_trade.Deposits.Policy.{DepositPolicy, Limits, hold_reason}

-- What the node says of a transaction.
pub record ChainStatus : Type 0 where
  pub success : Bool
  pub confirmations : ℕ

-- What the screening says of a sender.
pub record Screening : Type 0 where
  pub blocked : Bool
  pub reason : String

-- The services outside the model. `none` is a call that throws; of the node also "not found".
pub record World : Type 0 where
  pub now : ℕ
  pub status_of : (tx_hash : ℕ) → Option ChainStatus
  pub screen : AssetCode → (address : ℕ) → Option Screening
  pub policy : Option DepositPolicy
  pub limits : Option Limits
  pub deposit_waived : (country : ℕ) → Option Bool

-- What `credit` has read before its transaction.
pub record Terms : Type 0 where
  pub now : ℕ
  pub confirmations : ℕ
  pub screened : Option Screening
  pub policy : DepositPolicy
  pub limits : Limits
  pub waived : Bool

abbrev pub deposit_key : ℕ → ℕ → Key
deposit_key tx_hash log_index = word "deposit" ∷ hash tx_hash ∷ num log_index ∷ []

abbrev pub is_released : Option HoldResolution → Bool
is_released (some released_hold) = true
is_released _ = false

-- ---------------------------------------------------------------- the journal

abbrev pub deposit_input : Deposit → List Leg → JournalInput
deposit_input d legs = record {
  reason = deposit_credit;
  reference_type = deposit_ref;
  reference_id = d.id;
  idempotency_key = deposit_key d.tx_hash d.log_index;
  created_by = system;
  asset = d.asset;
  legs = legs;
}

abbrev pub fee_legs : Deposit → ℕ → ℕ → ℕ → ℕ → List Leg
fee_legs d fee outside user treasury =
    record { account_id = outside; amount = neg_ℤ (pos d.amount) }
    ∷ record { account_id = user; amount = pos d.amount -ℤ pos fee }
    ∷ record { account_id = treasury; amount = pos fee }
    ∷ []

abbrev pub plain_legs : Deposit → ℕ → ℕ → List Leg
plain_legs d outside user =
    record { account_id = outside; amount = neg_ℤ (pos d.amount) }
    ∷ record { account_id = user; amount = pos d.amount }
    ∷ []

abbrev pub credited_row : Terms → ℕ → ℕ → Deposit → Deposit
credited_row t fee journal_id d = record d {
  status = credited;
  credited_journal_id = some journal_id;
  fee = fee;
  confirmations = t.confirmations;
  updated_at = some t.now;
}

-- After the journal.
unfoldable pub record_credit : Terms → Deposit → ℕ → JournalResult → Tx Db (Unit {0})
record_credit t d fee r = do
  write_deposit d.id (credited_row t fee r.journal_id)
  enqueue_outbox (deposit_was_credited d.id (pos d.amount -ℤ pos fee) r.journal_id)
  audit (audit_deposit_credited d.id (pos d.amount -ℤ pos fee) r.journal_id)

-- The treasury's account is opened last, and only for a fee.
unfoldable pub post_credit : Terms → Deposit → ℕ → Tx Db (Unit {0})
post_credit t d fee =
    if ltb 0 fee
    then (do
      outside ← on_ledger (get_or_create_account none external d.asset)
      user ← on_ledger (get_or_create_account (some d.user_id) user_available d.asset)
      treasury ← on_ledger (get_or_create_account none platform_treasury d.asset)
      r ← on_ledger (post_journal (deposit_input d (fee_legs d fee outside user treasury)))
      record_credit t d fee r)
    else (do
      outside ← on_ledger (get_or_create_account none external d.asset)
      user ← on_ledger (get_or_create_account (some d.user_id) user_available d.asset)
      r ← on_ledger (post_journal (deposit_input d (plain_legs d outside user)))
      record_credit t d fee r)

abbrev pub deposit_fee : Terms → Deposit → Result ℕ
deposit_fee t d =
    if t.waived
    then ok 0
    else compute_deposit_fee (pos d.amount) t.policy.fee_fixed t.policy.fee_bps

-- ---------------------------------------------------------------- the gates before it

abbrev pub duplicate_row : Terms → Deposit → Deposit → Deposit
duplicate_row t twin d = record d {
  status = orphaned;
  policy_reason = some (duplicate_of twin.id);
  updated_at = some t.now;
}

unfoldable pub block_duplicate : Terms → Deposit → Deposit → Tx Db (Unit {0})
block_duplicate t d twin = do
  write_deposit d.id (duplicate_row t twin)
  enqueue_outbox (deposit_duplicate_blocked d.id twin.id)

abbrev pub tainted_row : Terms → Screening → Deposit → Deposit
tainted_row t s d = record d {
  aml_hold = true;
  aml_reason = some s.reason;
  updated_at = some t.now;
}

unfoldable pub hold_tainted : Terms → Deposit → Screening → Tx Db (Unit {0})
hold_tainted t d s = do write_deposit d.id (tainted_row t s); enqueue_outbox (aml_hit d.id)

abbrev pub held_row : Terms → PolicyReason → Deposit → Deposit
held_row t reason d = record d {
  policy_hold = true;
  policy_reason = some reason;
  confirmations = t.confirmations;
  updated_at = some t.now;
}

unfoldable pub hold_by_policy : Terms → Deposit → PolicyReason → Tx Db (Unit {0})
hold_by_policy t d reason = do
  write_deposit d.id (held_row t reason)
  enqueue_outbox (deposit_held d.id reason)

-- `!released && deposit.from_address && screened`, and the screening blocks
unfoldable pub tainted : Terms → Deposit → Option Screening
tainted t d = if is_released d.hold_resolution then none else elim d.from_address [
  | none ↦ none
  | some a ↦ elim t.screened [ none ↦ none | some s ↦ if s.blocked then some s else none ]
]

unfoldable pub policy_gate : Terms → Deposit → Tx Db (Option PolicyReason)
policy_gate t d =
    if is_released d.hold_resolution then pure none else hold_reason t.now d t.policy t.limits

unfoldable pub after_policy : Terms → Deposit → Option PolicyReason → Tx Db (Unit {0})
after_policy t d (some reason) = hold_by_policy t d reason
after_policy t d none = do fee ← lift (deposit_fee t d); post_credit t d fee

unfoldable pub after_screening : Terms → Deposit → Option Screening → Tx Db (Unit {0})
after_screening t d (some s) = hold_tainted t d s
after_screening t d none = do reason ← policy_gate t d; after_policy t d reason

unfoldable pub after_twin : Terms → Deposit → Option Deposit → Tx Db (Unit {0})
after_twin t d (some twin) = block_duplicate t d twin
after_twin t d none = after_screening t d (tainted t d)

unfoldable pub credit_row : Terms → Option Deposit → Tx Db (Unit {0})
credit_row t none = pure tt
credit_row t (some d) =
    if is_pending d.status
    then (do twin ← gets (λ db. find_twin d db.deposits); after_twin t d twin)
    else pure tt

unfoldable pub credit_tx : ℕ → Terms → Tx Db (Unit {0})
credit_tx id t = do found ← gets (λ db. find_deposit id db.deposits); credit_row t found

-- ---------------------------------------------------------------- the reads before the transaction

abbrev pub settled : {A : Type 0} → Option A → Result A
settled none = err service_unavailable
settled (some a) = ok a

-- `pre.from_address ? await this.screening.check(…) : null`
unfoldable pub screen_sender : World → Deposit → Result (Option Screening)
screen_sender w d = elim d.from_address [
  | none ↦ ok none
  | some a ↦ elim (w.screen d.asset a) [ none ↦ err service_unavailable | some s ↦ ok (some s) ]
]

unfoldable pub fee_waived : World → Option User → Result Bool
fee_waived w none = ok false
fee_waived w (some u) = settled (w.deposit_waived u.country)

unfoldable pub read_terms : World → ℕ → Deposit → List User → Result Terms
read_terms w confirmations d users = elim (screen_sender w d) [
  | err e ↦ err e
  | ok screened ↦ elim (settled w.policy) [
    | err e ↦ err e
    | ok policy ↦ elim (settled w.limits) [
      | err e ↦ err e
      | ok limits ↦ elim (fee_waived w (find_user d.user_id users)) [
        | err e ↦ err e
        | ok waived ↦ ok (record {
          now = w.now;
          confirmations = confirmations;
          screened = screened;
          policy = policy;
          limits = limits;
          waived = waived;
        })
      ]
    ]
  ]
]

unfoldable pub with_terms : (ℕ → Option PgCode) → ℕ → Result Terms → Service Db (Unit {0})
with_terms aborts id (err e) db = (err e, db)
with_terms aborts id (ok t) db = with_money_transaction aborts (credit_tx id t) db

-- The transaction is still on the chain, succeeded, and is as deep as is required.
unfoldable pub is_final : ℕ → Option ChainStatus → Bool
is_final required none = false
is_final required (some s) = s.success && not (ltb s.confirmations required)

unfoldable pub credit_found :
    (ℕ → Option PgCode) → World → ℕ → ℕ → ℕ → Option Deposit → Service Db (Unit {0})
credit_found aborts w id confirmations required none db = (ok tt, db)
credit_found aborts w id confirmations required (some pre) db =
    if not (is_pending pre.status && is_final required (w.status_of pre.tx_hash))
    then (ok tt, db)
    else with_terms aborts id (read_terms w confirmations pre db.users) db

-- `credit(depositId, confirmations, requiredConfirmations)`
unfoldable pub credit : (ℕ → Option PgCode) → World → ℕ → ℕ → ℕ → Service Db (Unit {0})
credit aborts w id confirmations required db =
    credit_found aborts w id confirmations required (find_deposit id db.deposits) db
