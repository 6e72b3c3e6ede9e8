-- ===== src/Deposits/Rows.antt =====
-- The rows of `deposits`, and the queries and updates that the deposit services make on them
-- (backend/src/modules/deposits, backend/src/modules/admin/held-deposits.service.ts).
use quata_trade.Prelude.{
  ℕ, Bool, true, false, not, ◌&&◌, Option, none, some, List, [], ◌∷◌, ◌==◌, if◌then◌else◌,
}
use quata_trade.Domain.{DepositStatus, seen, confirming, credited}
use quata_trade.Db.{Db, Deposit}
use quata_trade.Tx.{Tx, modify}

-- SEEN or CONFIRMING
abbrev pub is_pending : DepositStatus → Bool
is_pending seen = true
is_pending confirming = true
is_pending _ = false

abbrev pub is_credited : DepositStatus → Bool
is_credited credited = true
is_credited _ = false

unfoldable pub find_deposit : ℕ → List Deposit → Option Deposit
find_deposit id [] = none
find_deposit id (d ∷ ds) = if d.id == id then some d else find_deposit id ds

-- UPDATE deposits SET … WHERE id = …, the id being the primary key.
unfoldable pub update_deposit : ℕ → (Deposit → Deposit) → List Deposit → List Deposit
update_deposit id set [] = []
update_deposit id set (d ∷ ds) = if d.id == id then set d ∷ ds else d ∷ update_deposit id set ds

unfoldable pub write_deposit : ℕ → (Deposit → Deposit) → Tx Db (Unit {0})
write_deposit id set = modify λ db. record db { deposits = update_deposit id set db.deposits }

-- The row of UNIQUE (tx_hash, log_index).
abbrev pub is_transfer : ℕ → ℕ → Deposit → Bool
is_transfer tx log d = d.tx_hash == tx && d.log_index == log

unfoldable pub has_transfer : ℕ → ℕ → List Deposit → Bool
has_transfer tx log [] = false
has_transfer tx log (d ∷ ds) = if is_transfer tx log d then true else has_transfer tx log ds

abbrev pub is_twin : Deposit → Deposit → Bool
is_twin d e =
    e.tx_hash == d.tx_hash
    && (is_credited e.status
        && (e.user_id == d.user_id && (e.amount == d.amount && not (e.id == d.id))))

-- Another row of the same transaction, user and amount that has been credited.
unfoldable pub find_twin : Deposit → List Deposit → Option Deposit
find_twin d [] = none
find_twin d (e ∷ es) = if is_twin d e then some e else find_twin d es
