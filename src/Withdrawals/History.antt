-- ===== src/Withdrawals/History.antt =====
-- Any sequence of decisions and settlements of WithdrawalsService
-- (backend/src/modules/withdrawals/withdrawals.service.ts): approvals, the way of a withdrawal
-- through its statuses.
use quata_trade.Prelude.{
  ℕ, ◌≡◌, refl, ap, sym, ◌∙◌, true, false, some, Option-cases, Bool-cases, inl, inr, List, [], ◌∷◌,
  All, ◌==◌, arith,
}
use quata_trade.Domain.{WithdrawalStatus, withdrawal_status_eq}
use quata_trade.Tx.Preserves.{Preserves}
use quata_trade.Ledger.{get_or_create_account, post_journal}
use quata_trade.Db.{Db, Withdrawal}
use quata_trade.Escrow.History.{on_ledger-Preserves}
use quata_trade.Withdrawals.Rows.{
  find_withdrawal, set_withdrawal, write_withdrawal, guarded_update, is_released, dual_approved,
  passes_dual_approval,
}
use quata_trade.Tables.{enqueue_outbox, audit}
use quata_trade.Withdrawals.Settle.{update_where}
use quata_trade.Withdrawals.Updates.{IsUpdate, withdrawal_status_eq→eq}
use quata_trade.Withdrawals.Life.{Admits}

-- ------------------------------------------------- one update

-- What a write of `set row` over a row in the status `expected` keeps.
unfoldable pub Keeping : ℕ → (Db → Type 0) → Type 0
Keeping threshold P =
    (db : Db) (row : Withdrawal) (id : ℕ) (expected : WithdrawalStatus)
    (set : Withdrawal → Withdrawal)
    → IsUpdate expected set
    → find_withdrawal id db.withdrawals ≡ some row
    → row.status ≡ expected
    → passes_dual_approval threshold row.status (set row) ≡ true
    → P db
    → P (write_withdrawal (set row) db)

guarded_update-Preserves :
    (threshold : ℕ) (P : Db → Type 0) (k : Keeping threshold P) (id : ℕ)
    (expected : WithdrawalStatus) (set : Withdrawal → Withdrawal)
    → IsUpdate expected set
    → Preserves P (guarded_update threshold id expected set)
unfolding guarded_update Keeping
guarded_update-Preserves threshold P k id expected set u = record {
  at = λ db p. elim (Option-cases (find_withdrawal id db.withdrawals)) [
    | inl absent ↦ rw (absent, guarded_update) tt
    | inr (row, found) ↦ elim (Bool-cases (withdrawal_status_eq row.status expected)) [
      | inr stale ↦ rw (found, stale, guarded_update) tt
      | inl same ↦ elim (Bool-cases (passes_dual_approval threshold row.status (set row))) [
        | inr blocked ↦ rw (found, same, blocked, guarded_update) tt
        | inl passes ↦
            rw (found, same, passes, guarded_update)
              (k db row id expected set u found (withdrawal_status_eq→eq row.status expected same)
                passes p)
      ]
    ]
  ];
}

passes_released :
    (threshold : ℕ) (s : WithdrawalStatus) (w : Withdrawal)
    → is_released s ≡ true
    → passes_dual_approval threshold s w ≡ true
unfolding passes_dual_approval
passes_released threshold s w h = ground arith

update_where-keeps :
    (threshold : ℕ) (P : Db → Type 0) (k : Keeping threshold P) (id : ℕ)
    (expected : WithdrawalStatus) (set : Withdrawal → Withdrawal)
    → IsUpdate expected set
    → is_released expected ≡ true
    → (db : Db) → P db
    → P (update_where id expected set db).1
unfolding update_where Keeping
update_where-keeps threshold P k id expected set u released db p =
    elim (Option-cases (find_withdrawal id db.withdrawals)) [
      | inl absent ↦ rw (absent, update_where) p
      | inr (row, found) ↦ elim (Bool-cases (withdrawal_status_eq row.status expected)) [
        | inr stale ↦ rw (found, stale, update_where) p
        | inl same ↦
            let at_row : row.status ≡ expected = withdrawal_status_eq→eq row.status expected same in
            rw (found, same, update_where)
              (k db row id expected set u found at_row
                (passes_released threshold row.status (set row) (ap is_released at_row ∙ released))
                p)
      ]
    ]

-- The writes to the ledger, the outbox and the audit log do not touch the withdrawals, so that a
-- predicate on these needs `Keeping` alone.
module _ (threshold : ℕ) (Q : List Withdrawal → Type 0) where
  abbrev pub OnRows : Db → Type 0
  OnRows db = Q db.withdrawals

  pub OnRows-Admits : Keeping threshold OnRows → Admits threshold OnRows
  unfolding enqueue_outbox audit
  OnRows-Admits k = record {
    account = λ o kind c. on_ledger-Preserves (get_or_create_account o kind c) (λ db a l e h. h);
    posting = λ input. on_ledger-Preserves (post_journal input) (λ db a l e h. h);
    update = guarded_update-Preserves threshold OnRows k;
    lone = update_where-keeps threshold OnRows k;
    event = λ e. record { at = λ db h. h };
    entry = λ e. record { at = λ db h. h };
  }

-- ------------------------------------------------- approvals

-- Every withdrawal on its way out whose amount reaches the threshold has two different approvers.
abbrev pub AllDualApproved : ℕ → List Withdrawal → Type 0
AllDualApproved threshold =
    All (λ w. is_released w.status ≡ true → dual_approved threshold w ≡ true)

All-find :
    (Q : Withdrawal → Type 0) (id : ℕ) (ws : List Withdrawal) {w : Withdrawal}
    → find_withdrawal id ws ≡ some w
    → All Q ws
    → Q w
unfolding find_withdrawal
All-find Q id [] h a = cc
All-find Q id (x ∷ ws) {w} h a = elim (Bool-cases (x.id == id)) [
  | inl here ↦ let same : x ≡ w = cc (rw here at h) in rw (sym same) a.0
  | inr later ↦ All-find Q id ws (rw later at h) a.1
]

All-set :
    (Q : Withdrawal → Type 0) (w : Withdrawal) (ws : List Withdrawal)
    → Q w
    → All Q ws
    → All Q (set_withdrawal w ws)
unfolding set_withdrawal
All-set Q w [] q a = tt
All-set Q w (x ∷ ws) q a = elim (Bool-cases (x.id == w.id)) [
  | inl here ↦ rw here (q, a.1)
  | inr later ↦ rw later (a.0, All-set Q w ws q a.1)
]

entered :
    (threshold : ℕ) (s : WithdrawalStatus) (w : Withdrawal)
    → passes_dual_approval threshold s w ≡ true
    → is_released s ≡ false
    → is_released w.status ≡ true
    → dual_approved threshold w ≡ true
unfolding passes_dual_approval
entered threshold s w h old new = ground arith

dual_approved-same :
    (threshold : ℕ) (v w : Withdrawal)
    → w.amount ≡ v.amount
    → w.approved_by ≡ v.approved_by
    → w.second_approver ≡ v.second_approver
    → dual_approved threshold w ≡ dual_approved threshold v
unfolding dual_approved
dual_approved-same threshold v w amount first second = rw (amount, first, second) refl

pub AllDualApproved-Keeping :
    (threshold : ℕ) → Keeping threshold (OnRows threshold (AllDualApproved threshold))
unfolding Keeping write_withdrawal
AllDualApproved-Keeping threshold db row id expected set u found same passes h =
    All-set (λ w. is_released w.status ≡ true → dual_approved threshold w ≡ true) (set row)
      db.withdrawals new h
  where
    new : is_released (set row).status ≡ true → dual_approved threshold (set row) ≡ true
    new out = elim (Bool-cases (is_released row.status)) [
      | inr before ↦ entered threshold row.status (set row) passes before out
      | inl already ↦
          let kept = u.approvals (ap is_released (sym same) ∙ already) row in
          dual_approved-same threshold row (set row) (u.terms row).amount kept.0 kept.1
          ∙ All-find (λ w. is_released w.status ≡ true → dual_approved threshold w ≡ true) id
              db.withdrawals found h already
    ]
