-- ===== src/Deposits/Rejected/Filed.antt =====
-- The scanner and the decisions of admins leave a rejected deposit as it is
-- (backend/src/modules/deposits/deposit-scanner.service.ts,
-- backend/src/modules/admin/held-deposits.service.ts).
use quata_trade.Prelude.{
  ℕ, ◌≡◌, refl, sym, ◌∙◌, false, not, ◌&&◌, ◌||◌, Option, none, some, String, List, [], ◌∷◌, All,
  arith, Bool-cases, inl, inr,
}
use quata_trade.Errors.{held_deposit_not_found, held_deposit_already_resolved}
use quata_trade.Tx.{throw_if, ◌>>◌}
use quata_trade.Tx.Preserves.{Preserves, Preserves-guard, execute-keeps}
use quata_trade.Db.{Db, Deposit, HoldResolution}
use quata_trade.Tables.{enqueue_outbox, audit}
use quata_trade.Deposits.Rows.{is_pending, find_deposit, write_deposit, is_transfer, has_transfer}
use quata_trade.Deposits.Held.{
  decide_hold, decide_hold_tx, decide_found, write_decision, decided_row, is_undecided,
}
use quata_trade.Deposits.Scan.{
  ScanConfig, WatchedAddress, Transfer, scan_each, scan_address, record_all, record_transfer,
  insert_transfer, fill_block, update_transfer, mined_row, has_block, is_wanted,
}
use quata_trade.Deposits.Barred.{IsBarred, Barred}
use quata_trade.Deposits.Rejected.Passed.{update-Barred}

module _ (id : ℕ) where
  decided-Barred :
      (now other admin_id : ℕ) (resolution : HoldResolution) (reason : String)
      → Preserves (Barred id) (write_decision now other admin_id resolution reason)
  unfolding write_decision write_deposit audit enqueue_outbox
  decided-Barred now other admin_id resolution reason = record {
    at = λ db.
        update-Barred id other (decided_row now admin_id resolution reason) db _ refl refl
          (λ e. ground arith)
          (λ e b.
            let decided : is_undecided e.hold_resolution ≡ false = rw b.rejected refl in
            rw decided b);
  }

  decide_found-Barred :
      (now other admin_id : ℕ) (resolution : HoldResolution) (reason : String)
      (found : Option Deposit)
      → Preserves (Barred id) (decide_found now other admin_id resolution reason found)
  unfolding decide_found
  decide_found-Barred now other admin_id resolution reason none = record { at = λ db h. tt }
  decide_found-Barred now other admin_id resolution reason (some d) =
      Preserves-guard (not (d.aml_hold || d.policy_hold)) (held_deposit_not_found other)
        (throw_if (not (is_undecided d.hold_resolution)) held_deposit_already_resolved
          >> write_decision now other admin_id resolution reason)
        (λ held.
          Preserves-guard (not (is_undecided d.hold_resolution)) held_deposit_already_resolved
            (write_decision now other admin_id resolution reason)
            (λ undecided. decided-Barred now other admin_id resolution reason))

  pub decide_hold-Barred :
      (now other admin_id : ℕ) (resolution : HoldResolution) (reason : String) (db : Db)
      → Barred id db
      → Barred id (decide_hold now other admin_id resolution reason db).1
  unfolding decide_hold decide_hold_tx
  decide_hold-Barred now other admin_id resolution reason db h =
      execute-keeps {P = Barred id} (decide_hold_tx now other admin_id resolution reason) db
        (record {
          at = λ s.
              (decide_found-Barred now other admin_id resolution reason
                  (find_deposit other s.deposits)).at
                s;
        })
        h

  -- ---------------------------------------------------------------- the scanner

  rows-update_transfer :
      (tx log : ℕ) (set : Deposit → Deposit) (ds : List Deposit)
      → ((d : Deposit) → (set d).id ≡ d.id)
      → ((d : Deposit) → IsBarred d → IsBarred (set d))
      → All (λ d. d.id ≡ id → IsBarred d) ds
      → All (λ d. d.id ≡ id → IsBarred d) (update_transfer tx log set ds)
  unfolding update_transfer
  rows-update_transfer tx log set [] keeps kept h = tt
  rows-update_transfer tx log set (d ∷ ds) keeps kept h = elim (Bool-cases (is_transfer tx log d)) [
    | inl found ↦ rw found (λ e. kept d (h.0 (sym (keeps d) ∙ e)), h.1)
    | inr other ↦ rw other (h.0, rows-update_transfer tx log set ds keeps kept h.1)
  ]

  mined-IsBarred : (now block : ℕ) (d : Deposit) → IsBarred d → IsBarred (mined_row now block d)
  mined-IsBarred now block d b = elim (Bool-cases (not (has_block d) && is_pending d.status)) [
    | inl new ↦ rw new (record {
      rejected = b.rejected;
      held = b.held;
      uncredited = b.uncredited;
      unpaid = b.unpaid;
    })
    | inr known ↦ rw known b
  ]

  fill_block-rows :
      (now : ℕ) (t : Transfer) (block : Option ℕ) (ds : List Deposit)
      → All (λ d. d.id ≡ id → IsBarred d) ds
      → All (λ d. d.id ≡ id → IsBarred d) (fill_block now t block ds)
  unfolding fill_block
  fill_block-rows now t none ds h = h
  fill_block-rows now t (some block) ds h =
      rows-update_transfer t.tx_hash t.log_index (mined_row now block) ds (λ e. ground arith)
        (mined-IsBarred now block) h

  insert_transfer-Barred :
      (now : ℕ) (a : WatchedAddress) (t : Transfer) (dust_floor : ℕ) (db : Db)
      → Barred id db
      → Barred id (insert_transfer now a t dust_floor db)
  unfolding insert_transfer
  insert_transfer-Barred now a t dust_floor db h =
      let given = h.older in
      elim (Bool-cases (has_transfer t.tx_hash t.log_index db.deposits)) [
        | inl known ↦ rw known (record {
          older = omega arith;
          rows = fill_block-rows now t t.block_number db.deposits h.rows;
        })
        | inr new ↦
            rw new (record { older = omega arith; rows = (λ e. absurd (omega arith), h.rows) })
      ]

  record_all-Barred :
      (cfg : ScanConfig) (now dust_floor : ℕ) (a : WatchedAddress) (ts : List Transfer) (db : Db)
      → Barred id db
      → Barred id (record_all cfg now dust_floor a ts db)
  unfolding record_all record_transfer
  record_all-Barred cfg now dust_floor a [] db h = h
  record_all-Barred cfg now dust_floor a (t ∷ ts) db h = elim (Bool-cases (is_wanted cfg a t)) [
    | inl wanted ↦ rw wanted (
        record_all-Barred cfg now dust_floor a ts _
          (insert_transfer-Barred now a t dust_floor db h))
    | inr other ↦ rw other (record_all-Barred cfg now dust_floor a ts db h)
  ]

  scan_address-Barred :
      (cfg : ScanConfig) (now dust_floor : ℕ) (a : WatchedAddress) (ts : Option (List Transfer))
      (failures : ℕ) (db : Db)
      → Barred id db
      → Barred id (scan_address cfg now dust_floor a ts (failures, db)).1
  unfolding scan_address
  scan_address-Barred cfg now dust_floor a none failures db h = h
  scan_address-Barred cfg now dust_floor a (some ts) failures db h =
      record_all-Barred cfg now dust_floor a ts db h

  pub scan_each-Barred :
      (cfg : ScanConfig) (now dust_floor : ℕ) (to : ℕ → Option (List Transfer))
      (addresses : List WatchedAddress) (r : ℕ × Db)
      → Barred id r.1
      → Barred id (scan_each cfg now dust_floor to addresses r).1
  unfolding scan_each
  scan_each-Barred cfg now dust_floor to [] r h = h
  scan_each-Barred cfg now dust_floor to (a ∷ addresses) (failures, db) h =
      scan_each-Barred cfg now dust_floor to addresses _
        (scan_address-Barred cfg now dust_floor a (to a.address) failures db h)
