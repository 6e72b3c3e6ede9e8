-- ===== src/Withdrawals/Life.antt =====
-- What a predicate on the database must survive for the decisions and the settlement of
-- WithdrawalsService (backend/src/modules/withdrawals/withdrawals.service.ts) to keep it.
use quata_trade.Prelude.{
  ℕ, ◌≡◌, refl, Bool, true, false, Option, none, some, Option-cases, Bool-cases, inl, inr, String,
}
use quata_trade.Domain.{
  WithdrawalStatus, pending_approval, approved, signing, broadcast, rejected, withdrawal_status_eq,
  AccountKind, AssetCode, AdminRole,
}
use quata_trade.Tx.{Tx}
use quata_trade.Tx.Preserves.{
  Preserves, preserves_rules, Preserves-bind, Preserves-if, Preserves-ite, Preserves-guard,
  Preserves-pure, Preserves-throw,
}
use quata_trade.Ledger.{Actor, JournalInput, get_or_create_account, post_journal}
use quata_trade.Db.{Db, Withdrawal, OutboxEvent, withdrawal_broadcast, AuditEntry, on_ledger}
use quata_trade.Withdrawals.Rows.{
  find_withdrawal, guarded_update, is_released, lock_withdrawal, refund_withdrawal, require_role,
}
use quata_trade.Tables.{enqueue_outbox, audit}
use quata_trade.Withdrawals.Decide.{
  approve_single, approve_first, approve_second, approve_dual, approve_tx, reject_and_refund,
  reject_tx,
}
use quata_trade.Withdrawals.Settle.{
  update_where, settle, when_status, fail_and_refund, claim, broadcasting, claim_for_signing,
  announce_broadcast, mark_broadcast,
}
use quata_trade.Withdrawals.Updates.{
  is_step, IsUpdate, waiting, rejectable, confirmation-IsUpdate, failure-IsUpdate, claim-IsUpdate,
  broadcasting-IsUpdate, second_approval-IsUpdate, single_approval-IsUpdate,
  first_approval-IsUpdate, rejection-IsUpdate,
}

-- The writes of the service, each of which keeps `P`.
pub record Admits (threshold : ℕ) (P : Db → Type 0) : Type 0 where
  pub account :
      (o : Option ℕ) (k : AccountKind) (c : AssetCode)
      → Preserves P (on_ledger (get_or_create_account o k c))
  pub posting : (input : JournalInput) → Preserves P (on_ledger (post_journal input))
  pub update :
      (id : ℕ) (expected : WithdrawalStatus) (set : Withdrawal → Withdrawal)
      → IsUpdate expected set
      → Preserves P (guarded_update threshold id expected set)
  pub lone :
      (id : ℕ) (expected : WithdrawalStatus) (set : Withdrawal → Withdrawal)
      → IsUpdate expected set
      → is_released expected ≡ true
      → (db : Db) → P db
      → P (update_where id expected set db).1
  pub event : (e : OutboxEvent) → Preserves P (enqueue_outbox e)
  pub entry : (e : AuditEntry) → Preserves P (audit e)

module _ {threshold : ℕ} {P : Db → Type 0} (a : Admits threshold P) where
  lock_withdrawal-Preserves : (id : ℕ) → Preserves P (lock_withdrawal id)
  unfolding lock_withdrawal
  lock_withdrawal-Preserves id = record {
    at = λ db h. elim (Option-cases (find_withdrawal id db.withdrawals)) [
      | inl absent ↦ rw (absent, lock_withdrawal) tt
      | inr (w, found) ↦ rw (found, lock_withdrawal) h
    ];
  }

  require_role-Preserves :
      (role : AdminRole) (allowed : AdminRole → Bool) → Preserves P (require_role role allowed)
  unfolding require_role
  require_role-Preserves role allowed = search preserves_rules

  refund_withdrawal-Preserves :
      (w : Withdrawal) (actor : Actor) → Preserves P (refund_withdrawal w actor)
  unfolding refund_withdrawal
  refund_withdrawal-Preserves w actor = search (preserves_rules, a.account, a.posting) depth 12

  approve_single-Preserves :
      (w : Withdrawal) (admin : ℕ) (role : AdminRole)
      → is_step w.status approved ≡ true
      → is_released w.status ≡ false
      → Preserves P (approve_single threshold w admin role)
  unfolding approve_single
  approve_single-Preserves w admin role step waits =
      let set = single_approval-IsUpdate w admin step waits in
      search (preserves_rules, require_role-Preserves, a.update, set, a.event, a.entry) depth 12

  approve_first-Preserves :
      (w : Withdrawal) (admin : ℕ) (role : AdminRole)
      → is_step w.status pending_approval ≡ true
      → is_released w.status ≡ false
      → Preserves P (approve_first threshold w admin role)
  unfolding approve_first
  approve_first-Preserves w admin role step waits =
      let set = first_approval-IsUpdate w.status admin step waits in
      search (preserves_rules, require_role-Preserves, a.update, set, a.entry) depth 12

  approve_second-Preserves :
      (w : Withdrawal) (first admin : ℕ) (role : AdminRole)
      → Preserves P (approve_second threshold w first admin role)
  unfolding approve_second
  approve_second-Preserves w first admin role =
      search
        (
          preserves_rules, require_role-Preserves, a.update, second_approval-IsUpdate, a.event,
          a.entry,
        )
        depth 12

  approve_dual-Preserves :
      (w : Withdrawal) (first : Option ℕ) (admin : ℕ) (role : AdminRole)
      → is_step w.status pending_approval ≡ true
      → is_released w.status ≡ false
      → Preserves P (approve_dual threshold w first admin role)
  unfolding approve_dual
  approve_dual-Preserves w none admin role step waits =
      approve_first-Preserves w admin role step waits
  approve_dual-Preserves w (some first) admin role step waits =
      approve_second-Preserves w first admin role

  pub approve-Preserves :
      (id admin : ℕ) (role : AdminRole) → Preserves P (approve_tx threshold id admin role)
  unfolding approve_tx
  approve-Preserves id admin role = Preserves-bind _ _ (lock_withdrawal-Preserves id) (λ w.
      Preserves-guard _ _ _ (λ h.
        let (to_approved, to_pending, to_rejected, waits) = waiting w.status h in
        Preserves-if _ _ _ (approve_single-Preserves w admin role to_approved waits)
          (approve_dual-Preserves w w.approved_by admin role to_pending waits)))

  reject_and_refund-Preserves :
      (w : Withdrawal) (admin : ℕ) (reason : String)
      → is_step w.status rejected ≡ true
      → is_released w.status ≡ false
      → Preserves P (reject_and_refund threshold w admin reason)
  unfolding reject_and_refund
  reject_and_refund-Preserves w admin reason step waits =
      let set = rejection-IsUpdate w.status reason step waits in
      search (preserves_rules, refund_withdrawal-Preserves, a.update, set, a.event, a.entry) depth
        12

  pub reject-Preserves :
      (id admin : ℕ) (reason : String) → Preserves P (reject_tx threshold id admin reason)
  unfolding reject_tx
  reject-Preserves id admin reason = Preserves-bind _ _ (lock_withdrawal-Preserves id) (λ w.
      Preserves-if _ _ _ (Preserves-pure w) (
        Preserves-ite _ _ _ (λ h. Preserves-throw _)
          (λ h.
            let (step, waits) = rejectable w.status h in
            reject_and_refund-Preserves w admin reason step waits)))

  settle-Preserves : (w : Withdrawal) → Preserves P (settle threshold w)
  unfolding settle
  settle-Preserves w =
      search
        (preserves_rules, a.account, a.posting, a.update, confirmation-IsUpdate, a.event, a.entry)
        depth 14

  fail_and_refund-Preserves :
      (why : String) (w : Withdrawal) → Preserves P (fail_and_refund threshold why w)
  unfolding fail_and_refund
  fail_and_refund-Preserves why w =
      search
        (preserves_rules, refund_withdrawal-Preserves, a.update, failure-IsUpdate, a.event, a.entry)
        depth 14

  when_status-Preserves :
      (id : ℕ) (expected : WithdrawalStatus) (f : Withdrawal → Tx Db Bool)
      → ((w : Withdrawal) → Preserves P (f w))
      → Preserves P (when_status id expected f)
  unfolding when_status
  when_status-Preserves id expected f h = record {
    at = λ db p. elim (Option-cases (find_withdrawal id db.withdrawals)) [
      | inl absent ↦ rw (absent, when_status) p
      | inr (w, found) ↦ elim (Bool-cases (withdrawal_status_eq w.status expected)) [
        | inl same ↦ rw (found, same, when_status) ((h w).at db p)
        | inr other ↦ rw (found, other, when_status) p
      ]
    ];
  }

  pub settle_confirmed-Preserves :
      (id : ℕ) → Preserves P (when_status id broadcast (settle threshold))
  settle_confirmed-Preserves id =
      when_status-Preserves id broadcast (settle threshold) settle-Preserves

  pub mark_failed-Preserves :
      (id : ℕ) (why : String) → Preserves P (when_status id signing (fail_and_refund threshold why))
  mark_failed-Preserves id why =
      when_status-Preserves id signing (fail_and_refund threshold why)
        (fail_and_refund-Preserves why)

  pub claim_for_signing-keeps : (id : ℕ) (db : Db) → P db → P (claim_for_signing id db).1
  unfolding claim_for_signing is_released
  claim_for_signing-keeps id db p = a.lone id approved claim claim-IsUpdate refl db p

  announce_broadcast-keeps : (id : ℕ) (r : Bool × Db) → P r.1 → P (announce_broadcast id r).1
  unfolding announce_broadcast enqueue_outbox
  announce_broadcast-keeps id (true, db) p = (a.event (withdrawal_broadcast id)).at db p
  announce_broadcast-keeps id (false, db) p = p

  pub mark_broadcast-keeps : (id hash : ℕ) (db : Db) → P db → P (mark_broadcast id hash db).1
  unfolding mark_broadcast is_released
  mark_broadcast-keeps id hash db p =
      announce_broadcast-keeps id _
        (a.lone id signing (broadcasting hash) (broadcasting-IsUpdate hash) refl db p)
