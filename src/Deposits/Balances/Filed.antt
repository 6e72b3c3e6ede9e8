-- ===== src/Deposits/Balances/Filed.antt =====
-- The scanner and the decisions of admins keep the balances as the table of deposits shows them
-- (backend/src/modules/deposits/deposit-scanner.service.ts,
-- backend/src/modules/admin/held-deposits.service.ts).
use quata_trade.Prelude.{
  ℕ, ◌||◌, ℤ, ◌+ℤ◌, zero_+ℤ, sym, refl, ap, ◌∙◌, not, ◌&&◌, Option, none, some, String, List, [],
  ◌∷◌, arith, Bool-cases, inl, inr,
}
use quata_trade.Errors.{held_deposit_not_found, held_deposit_already_resolved}
use quata_trade.Tx.{throw_if, ◌>>◌}
use quata_trade.Tx.Preserves.{Preserves, execute-keeps}
use quata_trade.Tx.Ensures.{Ensures, Ensures-Preserves, Ensures-guard}
use quata_trade.Ledger.Holdings.{Ref}
use quata_trade.Db.{Db, Deposit, HoldResolution}
use quata_trade.Tables.{enqueue_outbox, audit}
use quata_trade.Deposits.Rows.{is_pending, find_deposit, write_deposit, has_transfer, is_transfer}
use quata_trade.Deposits.Held.{
  decide_hold, decide_hold_tx, decide_found, write_decision, decided_row, is_undecided,
}
use quata_trade.Deposits.Scan.{
  ScanConfig, WatchedAddress, Transfer, scan_each, scan_address, record_all, record_transfer,
  insert_transfer, fill_block, update_transfer, mined_row, has_block, is_wanted,
}
use quata_trade.Deposits.Shown.{
  Shown, Quiet, SameMoney, same_money, Quiet-self, update_deposit-Quiet, Shown-Quiet, deposit_moves,
}
use quata_trade.Deposits.Balances.Passed.{quiet_row}

update_transfer-Quiet :
    (tx log : ℕ) (set : Deposit → Deposit) (ds : List Deposit)
    → ((d : Deposit) → SameMoney d (set d))
    → Quiet ds (update_transfer tx log set ds)
unfolding update_transfer
update_transfer-Quiet tx log set [] k = tt
update_transfer-Quiet tx log set (d ∷ ds) k = elim (Bool-cases (is_transfer tx log d)) [
  | inl found ↦ rw found (k d, Quiet-self ds)
  | inr other ↦ rw other (same_money d, update_transfer-Quiet tx log set ds k)
]

module _ (base : Ref → ℤ) where
  written-Shown :
      (now id admin_id : ℕ) (resolution : HoldResolution) (reason : String)
      → Ensures (Shown base) (Shown base) (write_decision now id admin_id resolution reason)
  unfolding write_decision write_deposit audit enqueue_outbox
  written-Shown now id admin_id resolution reason = record {
    at = λ db h. Shown-Quiet db _ h refl (
        update_deposit-Quiet id (decided_row now admin_id resolution reason) db.deposits (λ e.
          quiet_row (is_undecided e.hold_resolution) e _ (record {
            tx = refl;
            log = refl;
            is_paid_same = refl;
            moves = λ t. refl;
            pending = λ p. p;
          })));
  }

  decided-Shown :
      (now id admin_id : ℕ) (resolution : HoldResolution) (reason : String) (found : Option Deposit)
      → Preserves (Shown base) (decide_found now id admin_id resolution reason found)
  unfolding decide_found
  decided-Shown now id admin_id resolution reason none = record { at = λ db h. tt }
  decided-Shown now id admin_id resolution reason (some d) = Ensures-Preserves (
      Ensures-guard (not (d.aml_hold || d.policy_hold)) (held_deposit_not_found id)
        (throw_if (not (is_undecided d.hold_resolution)) held_deposit_already_resolved
          >> write_decision now id admin_id resolution reason)
        (λ held.
          Ensures-guard (not (is_undecided d.hold_resolution)) held_deposit_already_resolved
            (write_decision now id admin_id resolution reason)
            (λ undecided. written-Shown now id admin_id resolution reason)))

  pub decide_hold-Shown :
      (now id admin_id : ℕ) (resolution : HoldResolution) (reason : String) (db : Db)
      → Shown base db
      → Shown base (decide_hold now id admin_id resolution reason db).1
  unfolding decide_hold decide_hold_tx
  decide_hold-Shown now id admin_id resolution reason db h =
      execute-keeps {P = Shown base} (decide_hold_tx now id admin_id resolution reason) db
        (record {
          at = λ s k.
              (decided-Shown now id admin_id resolution reason (find_deposit id s.deposits)).at s k;
        })
        h

  fill_block-Quiet :
      (now : ℕ) (t : Transfer) (block : Option ℕ) (ds : List Deposit)
      → Quiet ds (fill_block now t block ds)
  unfolding fill_block
  fill_block-Quiet now t none ds = Quiet-self ds
  fill_block-Quiet now t (some block) ds =
      update_transfer-Quiet t.tx_hash t.log_index (mined_row now block) ds (λ e.
        quiet_row (not (has_block e) && is_pending e.status) e
          (record e { block_number = some block; updated_at = some now })
          (record {
            tx = refl;
            log = refl;
            is_paid_same = refl;
            moves = λ r. refl;
            pending = λ p. p;
          }))

  insert_transfer-Shown :
      (now : ℕ) (a : WatchedAddress) (t : Transfer) (dust_floor : ℕ) (db : Db)
      → Shown base db
      → Shown base (insert_transfer now a t dust_floor db)
  unfolding insert_transfer
  insert_transfer-Shown now a t dust_floor db h =
      elim (Bool-cases (has_transfer t.tx_hash t.log_index db.deposits)) [
        | inl known ↦
            rw known (Shown-Quiet db _ h refl (fill_block-Quiet now t t.block_number db.deposits))
        | inr new ↦ rw new (record {
          indexed = h.indexed;
          unique = (new, h.unique);
          waiting = (λ p. refl, h.waiting);
          free = λ tx log p. h.free tx log (ground arith);
          shows =
              λ r. h.shows r ∙ ap (λ v. v +ℤ base r) (sym (zero_+ℤ (deposit_moves db.deposits r)));
        })
      ]

  record_all-Shown :
      (cfg : ScanConfig) (now dust_floor : ℕ) (a : WatchedAddress) (ts : List Transfer) (db : Db)
      → Shown base db
      → Shown base (record_all cfg now dust_floor a ts db)
  unfolding record_all record_transfer
  record_all-Shown cfg now dust_floor a [] db h = h
  record_all-Shown cfg now dust_floor a (t ∷ ts) db h = elim (Bool-cases (is_wanted cfg a t)) [
    | inl wanted ↦
        rw wanted (
          record_all-Shown cfg now dust_floor a ts _
            (insert_transfer-Shown now a t dust_floor db h))
    | inr other ↦ rw other (record_all-Shown cfg now dust_floor a ts db h)
  ]

  scan_address-Shown :
      (cfg : ScanConfig) (now dust_floor : ℕ) (a : WatchedAddress) (ts : Option (List Transfer))
      (failures : ℕ) (db : Db)
      → Shown base db
      → Shown base (scan_address cfg now dust_floor a ts (failures, db)).1
  unfolding scan_address
  scan_address-Shown cfg now dust_floor a none failures db h = h
  scan_address-Shown cfg now dust_floor a (some ts) failures db h =
      record_all-Shown cfg now dust_floor a ts db h

  pub scan_each-Shown :
      (cfg : ScanConfig) (now dust_floor : ℕ) (to : ℕ → Option (List Transfer))
      (addresses : List WatchedAddress) (r : ℕ × Db)
      → Shown base r.1
      → Shown base (scan_each cfg now dust_floor to addresses r).1
  unfolding scan_each
  scan_each-Shown cfg now dust_floor to [] r h = h
  scan_each-Shown cfg now dust_floor to (a ∷ addresses) (failures, db) h =
      scan_each-Shown cfg now dust_floor to addresses _
        (scan_address-Shown cfg now dust_floor a (to a.address) failures db h)
