-- ===== src/Deposits/Scan.antt =====
-- DepositScannerService (backend/src/modules/deposits/deposit-scanner.service.ts): transfers of the
-- chain become rows of `deposits`. The addresses are the active rows of `deposit_addresses`, the
-- oldest first; addresses, contracts and senders are numbers.
use quata_trade.Prelude.{
  ℕ, ◌+◌, Bool, true, false, not, ◌&&◌, Option, none, some, List, [], ◌∷◌, length, ltb, ◌==◌,
  if◌then◌else◌,
}
use quata_trade.Domain.{AssetCode, seen, ignored_dust}
use quata_trade.Db.{Db, Deposit}
use quata_trade.Deposits.Rows.{is_pending, is_transfer, has_transfer}
use quata_trade.Deposits.Passes.{Breaker, note_success, note_failure}

pub record WatchedAddress : Type 0 where
  pub address : ℕ
  pub user_id : ℕ
  pub asset : AssetCode

-- A transfer as the node reports it. The amount is a bigint: a negative one is 0 here, which the
-- code treats alike.
pub record Transfer : Type 0 where
  pub to : ℕ
  pub contract : ℕ
  pub sender : ℕ
  pub tx_hash : ℕ
  pub log_index : ℕ
  pub amount : ℕ
  pub block_number : Option ℕ

-- `DepositsConfig`
pub record ScanConfig : Type 0 where
  pub usdt_contract : ℕ
  pub min_amount : ℕ

abbrev pub scanned_row : ℕ → ℕ → WatchedAddress → Transfer → ℕ → Deposit
scanned_row now id a t dust_floor = record {
  id = id;
  user_id = a.user_id;
  asset = a.asset;
  tx_hash = t.tx_hash;
  log_index = t.log_index;
  amount = t.amount;
  block_number = t.block_number;
  confirmations = 0;
  status = if ltb t.amount dust_floor then ignored_dust else seen;
  credited_journal_id = none;
  from_address = some t.sender;
  aml_hold = false;
  aml_reason = none;
  fee = 0;
  policy_hold = false;
  policy_reason = none;
  hold_resolution = none;
  hold_resolution_reason = none;
  hold_resolved_by = none;
  hold_resolved_at = none;
  created_at = now;
  updated_at = none;
}

abbrev pub has_block : Deposit → Bool
has_block d = elim d.block_number [ none ↦ false | some _ ↦ true ]

-- SET block_number WHERE block_number IS NULL AND status IN ('SEEN', 'CONFIRMING')
abbrev pub mined_row : ℕ → ℕ → Deposit → Deposit
mined_row now block d =
    if not (has_block d) && is_pending d.status
    then record d { block_number = some block; updated_at = some now }
    else d

-- WHERE tx_hash = … AND log_index = …, which is one row.
unfoldable pub update_transfer : ℕ → ℕ → (Deposit → Deposit) → List Deposit → List Deposit
update_transfer tx log set [] = []
update_transfer tx log set (d ∷ ds) =
    if is_transfer tx log d then set d ∷ ds else d ∷ update_transfer tx log set ds

unfoldable pub fill_block : ℕ → Transfer → Option ℕ → List Deposit → List Deposit
fill_block now t none ds = ds
fill_block now t (some block) ds = update_transfer t.tx_hash t.log_index (mined_row now block) ds

-- INSERT … ON CONFLICT (tx_hash, log_index) DO NOTHING, then the block of a row seen without one.
unfoldable pub insert_transfer : ℕ → WatchedAddress → Transfer → ℕ → Db → Db
insert_transfer now a t dust_floor db =
    if has_transfer t.tx_hash t.log_index db.deposits
    then record db {
      next_id = db.next_id + 1;
      deposits = fill_block now t t.block_number db.deposits;
    }
    else record db {
      next_id = db.next_id + 1;
      deposits = scanned_row now db.next_id a t dust_floor ∷ db.deposits;
    }

abbrev pub is_wanted : ScanConfig → WatchedAddress → Transfer → Bool
is_wanted cfg a t = t.to == a.address && (t.contract == cfg.usdt_contract && ltb 0 t.amount)

unfoldable pub record_transfer : ScanConfig → ℕ → ℕ → WatchedAddress → Transfer → Db → Db
record_transfer cfg now dust_floor a t db =
    if is_wanted cfg a t then insert_transfer now a t dust_floor db else db

unfoldable pub record_all : ScanConfig → ℕ → ℕ → WatchedAddress → List Transfer → Db → Db
record_all cfg now dust_floor a [] db = db
record_all cfg now dust_floor a (t ∷ ts) db =
    record_all cfg now dust_floor a ts (record_transfer cfg now dust_floor a t db)

-- What one address adds; `none` is a failed call of the node. With the number of failures.
unfoldable pub scan_address :
    ScanConfig → ℕ → ℕ → WatchedAddress → Option (List Transfer) → ℕ × Db → ℕ × Db
scan_address cfg now dust_floor a none (failures, db) = (failures + 1, db)
scan_address cfg now dust_floor a (some ts) (failures, db) =
    (failures, record_all cfg now dust_floor a ts db)

unfoldable pub scan_each :
    ScanConfig → ℕ → ℕ → (ℕ → Option (List Transfer)) → List WatchedAddress → ℕ × Db → ℕ × Db
scan_each cfg now dust_floor transfers_to [] r = r
scan_each cfg now dust_floor transfers_to (a ∷ rest) r =
    scan_each cfg now dust_floor transfers_to rest
      (scan_address cfg now dust_floor a (transfers_to a.address) r)

-- The lower of the two minima; the policy's may not be readable.
unfoldable pub dust_floor_of : ScanConfig → Option ℕ → ℕ
dust_floor_of cfg none = cfg.min_amount
dust_floor_of cfg (some policy_min) =
    if ltb policy_min cfg.min_amount then policy_min else cfg.min_amount

-- Only a pass in which every address failed counts as a failure.
unfoldable pub after_scan : ℕ → ℕ → ℕ → Breaker → Breaker
after_scan now addresses failures b =
    if ltb 0 addresses && failures == addresses then note_failure now b else note_success b

unfoldable pub scan_once :
    ScanConfig
    → ℕ
    → Option ℕ
    → (ℕ → Option (List Transfer))
    → List WatchedAddress
    → Breaker × Db
    → Breaker × Db
scan_once cfg now policy_min transfers_to addresses (b, db) =
    let r = scan_each cfg now (dust_floor_of cfg policy_min) transfers_to addresses (0, db) in
    (after_scan now (length addresses) r.0 b, r.1)

-- `tick`, where no other pass is running.
unfoldable pub scan_tick :
    ScanConfig
    → ℕ
    → Option ℕ
    → (ℕ → Option (List Transfer))
    → List WatchedAddress
    → Breaker × Db
    → Breaker × Db
scan_tick cfg now policy_min transfers_to addresses (b, db) =
    if ltb now b.paused_until
    then (b, db)
    else scan_once cfg now policy_min transfers_to addresses (b, db)
