-- ===== src/Deposits/Passes.antt =====
-- `confirmOnce`, `tick` and `orphanSweep` of DepositConfirmationService
-- (backend/src/modules/deposits/deposit-confirmation.service.ts). What `ORDER BY` sorts is sorted
-- here too, rows of one time staying in the order of the table.
use quata_trade.Prelude.{
  ℕ, zero, suc, ◌+◌, ◌-◌, Bool, true, false, not, ◌&&◌, Option, none, some, List, [], ◌∷◌, filter,
  ltb, leb, if◌then◌else◌,
}
use quata_trade.Domain.{confirming, orphaned}
use quata_trade.Errors.{PgCode}
use quata_trade.Db.{Db, Deposit, deposit_was_orphaned}
use quata_trade.Deposits.Rows.{is_pending, is_credited, update_deposit}
use quata_trade.Deposits.{World, ChainStatus, credit}

-- ---------------------------------------------------------------- the circuit breaker

abbrev pub max_consecutive_failures : ℕ
max_consecutive_failures = 5

abbrev pub pause_ms : ℕ
pause_ms = 300_000

-- What a job keeps in memory between its passes.
pub record Breaker : Type 0 where
  pub consecutive_failures : ℕ
  pub paused_until : ℕ

unfoldable pub note_success : Breaker → Breaker
note_success b = record b { consecutive_failures = 0 }

unfoldable pub note_failure : ℕ → Breaker → Breaker
note_failure now b =
    if leb max_consecutive_failures (b.consecutive_failures + 1)
    then record { consecutive_failures = 0; paused_until = now + pause_ms }
    else record b { consecutive_failures = b.consecutive_failures + 1 }

-- ---------------------------------------------------------------- the confirmation pass

abbrev pub is_unheld : Deposit → Bool
is_unheld d = is_pending d.status && (not d.aml_hold && not d.policy_hold)

unfoldable pub insert_oldest : Deposit → List Deposit → List Deposit
insert_oldest d [] = d ∷ []
insert_oldest d (e ∷ es) =
    if leb d.created_at e.created_at then d ∷ e ∷ es else e ∷ insert_oldest d es

unfoldable pub oldest_first : List Deposit → List Deposit
oldest_first [] = []
oldest_first (d ∷ ds) = insert_oldest d (oldest_first ds)

unfoldable pub pending_deposits : List Deposit → List Deposit
pending_deposits ds = oldest_first (filter is_unheld ds)

abbrev pub max_confirmations : ℕ
max_confirmations = 2_000_000_000

unfoldable pub to_int_confirmations : ℕ → ℕ
to_int_confirmations depth = if ltb max_confirmations depth then max_confirmations else depth

-- SET … WHERE status IN ('SEEN', 'CONFIRMING')
abbrev pub counted_row : ℕ → ℕ → Deposit → Deposit
counted_row now confirmations d =
    if is_pending d.status
    then record d { confirmations = confirmations; status = confirming; updated_at = some now }
    else d

unfoldable pub count_depth : ℕ → ℕ → ℕ → Db → Db
count_depth now id confirmations db = record db {
  deposits = update_deposit id (counted_row now confirmations) db.deposits;
}

-- The body of the loop for one deposit as it was read; what `credit` throws is logged.
unfoldable pub confirm_at : (ℕ → ℕ → Option PgCode) → World → ℕ → ℕ → Deposit → Option ℕ → Db → Db
confirm_at aborts w required height d none db = db
confirm_at aborts w required height d (some block) db =
    let confirmations = to_int_confirmations (height - block) in
    if ltb height block
    then db
    else if ltb confirmations required
    then count_depth w.now d.id confirmations db
    else (credit (aborts d.id) w d.id confirmations required db).1

unfoldable pub confirm_each : (ℕ → ℕ → Option PgCode) → World → ℕ → ℕ → List Deposit → Db → Db
confirm_each aborts w required height [] db = db
confirm_each aborts w required height (d ∷ ds) db =
    confirm_each aborts w required height ds
      (confirm_at aborts w required height d d.block_number db)

-- `height` is what the node answers; `aborts id` says what the database does to the attempts of the
-- transaction for the deposit `id`.
unfoldable pub confirm_once :
    (ℕ → ℕ → Option PgCode) → World → ℕ → Option ℕ → Breaker × Db → Breaker × Db
confirm_once aborts w required none (b, db) = (note_failure w.now b, db)
confirm_once aborts w required (some height) (b, db) =
    (note_success b, confirm_each aborts w required height (pending_deposits db.deposits) db)

-- `tick`, where no other pass is running.
unfoldable pub confirm_tick :
    (ℕ → ℕ → Option PgCode) → World → ℕ → Option ℕ → Breaker × Db → Breaker × Db
confirm_tick aborts w required height (b, db) =
    if ltb w.now b.paused_until then (b, db) else confirm_once aborts w required height (b, db)

-- ---------------------------------------------------------------- the orphan sweep

abbrev pub sweep_window_ms : ℕ
sweep_window_ms = 21_600_000

abbrev pub touched_after : ℕ → Option ℕ → Bool
touched_after now none = false
touched_after now (some at) = ltb now (at + sweep_window_ms)

abbrev pub is_recent : ℕ → Deposit → Bool
is_recent now d = is_credited d.status && touched_after now d.updated_at

abbrev pub touched_at : Option ℕ → ℕ
touched_at none = 0
touched_at (some at) = at

unfoldable pub insert_newest : Deposit → List Deposit → List Deposit
insert_newest d [] = d ∷ []
insert_newest d (e ∷ es) =
    if leb (touched_at e.updated_at) (touched_at d.updated_at)
    then d ∷ e ∷ es
    else e ∷ insert_newest d es

unfoldable pub newest_first : List Deposit → List Deposit
newest_first [] = []
newest_first (d ∷ ds) = insert_newest d (newest_first ds)

unfoldable pub take : ℕ → List Deposit → List Deposit
take zero ds = []
take (suc n) [] = []
take (suc n) (d ∷ ds) = d ∷ take n ds

-- SET … WHERE status = 'CREDITED'
abbrev pub orphaned_row : ℕ → Deposit → Deposit
orphaned_row now d =
    if is_credited d.status then record d { status = orphaned; updated_at = some now } else d

unfoldable pub orphan : ℕ → Deposit → Db → Db
orphan now d db = record db {
  deposits = update_deposit d.id (orphaned_row now) db.deposits;
  outbox = deposit_was_orphaned d.id ∷ db.outbox;
}

-- Only a transaction that is known to have failed.
abbrev pub has_failed : Option ChainStatus → Bool
has_failed none = false
has_failed (some s) = not s.success

-- The flag is whether `pauseWithdrawals` was called.
unfoldable pub sweep_each : World → List Deposit → Bool × Db → Bool × Db
sweep_each w [] (paused, db) = (paused, db)
sweep_each w (d ∷ ds) (paused, db) =
    sweep_each w ds
      (if has_failed (w.status_of d.tx_hash) then (true, orphan w.now d db) else (paused, db))

unfoldable pub orphan_sweep : World → Db → Bool × Db
orphan_sweep w db =
    sweep_each w (take 200 (newest_first (filter (is_recent w.now) db.deposits))) (false, db)
