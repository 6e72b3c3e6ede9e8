-- ===== src/Deposits/Barred.antt =====
-- A deposit whose hold an admin has rejected is left alone by the credits of the others
-- (backend/src/modules/admin/held-deposits.service.ts,
-- backend/src/modules/deposits/deposit-confirmation.service.ts).
use quata_trade.Prelude.{
  ℕ, pos, ◌-ℤ◌, ◌<◌, ◌≡◌, ◌≢◌, refl, sym, ◌∙◌, ap, true, false, not, ◌&&◌, ◌||◌, Option, none, some,
  List, [], ◌∷◌, ◌==◌, All, arith, Bool-cases, Option-cases, inl, inr,
}
use quata_trade.Domain.{AccountKind, AssetCode}
use quata_trade.Errors.{PgCode}
use quata_trade.Tx.{Result, ok, err, lift, gets}
use quata_trade.Tx.Guards.{ok_inj}
use quata_trade.Tx.Preserves.{
  Preserves, Preserves-bind, Preserves-bind_where, preserves_rules, with_money_transaction-keeps,
}
use quata_trade.Ledger.{JournalInput, JournalResult, get_or_create_account, post_journal}
use quata_trade.Db.{
  Db, Deposit, rejected_hold, deposit_was_credited, OutboxEvent, AuditEntry, PolicyReason,
  on_ledger,
}
use quata_trade.Tables.{enqueue_outbox, audit}
use quata_trade.Escrow.History.{on_ledger-Preserves}
use quata_trade.Deposits.Rows.{is_pending, is_credited, find_deposit, update_deposit, write_deposit}
use quata_trade.Deposits.Policy.{
  DepositPolicy, Limits, hold_reason, balance_reason, daily_reason, custody_reason,
}
use quata_trade.Deposits.{
  World, Terms, Screening, credit, credit_found, read_terms, with_terms, is_final, credited_row,
  held_row, tainted_row, duplicate_row, record_credit, post_credit, block_duplicate, hold_tainted,
  hold_by_policy, tainted, policy_gate, after_policy, after_screening, after_twin, credit_row,
  credit_tx,
}
use quata_trade.Deposits.Shown.{is_paid}
use quata_trade.Deposits.Paying.{found_id}

-- Rejected, held, and neither credited nor paid.
pub record IsBarred (d : Deposit) : Type 0 where
  pub rejected : d.hold_resolution ≡ some rejected_hold
  pub held : d.aml_hold || d.policy_hold ≡ true
  pub uncredited : is_credited d.status ≡ false
  pub unpaid : is_paid d ≡ false

-- The id has been given out, and its row is barred.
pub record Barred (id : ℕ) (db : Db) : Type 0 where
  pub older : id < db.next_id
  pub rows : All (λ d. d.id ≡ id → IsBarred d) db.deposits

pub rows-update :
    (id other : ℕ) (set : Deposit → Deposit) (ds : List Deposit)
    → ((d : Deposit) → d.id ≡ other → (d.id ≡ id → IsBarred d) → (set d).id ≡ id → IsBarred (set d))
    → All (λ d. d.id ≡ id → IsBarred d) ds
    → All (λ d. d.id ≡ id → IsBarred d) (update_deposit other set ds)
unfolding update_deposit
rows-update id other set [] k h = tt
rows-update id other set (d ∷ ds) k h = elim (Bool-cases (d.id == other)) [
  | inl found ↦ rw found (k d (ground arith) h.0, h.1)
  | inr differs ↦ rw differs (h.0, rows-update id other set ds k h.1)
]

module _ (id : ℕ) where
  -- A write to another row.
  write_deposit-Barred :
      (other : ℕ) (set : Deposit → Deposit)
      → id ≢ other
      → ((d : Deposit) → (set d).id ≡ d.id)
      → Preserves (Barred id) (write_deposit other set)
  unfolding write_deposit
  write_deposit-Barred other set ne keeps = record {
    at = λ db h. record {
      older = h.older;
      rows =
          rows-update id other set db.deposits
            (λ d at_other barred same. absurd (ne (sym same ∙ keeps d ∙ at_other))) h.rows;
    };
  }

  account-Barred :
      (o : Option ℕ) (k : AccountKind) (c : AssetCode)
      → Preserves (Barred id) (on_ledger (get_or_create_account o k c))
  account-Barred o k c =
      on_ledger-Preserves (get_or_create_account o k c)
        (λ db a l e h. record { older = h.older; rows = h.rows })

  posting-Barred : (input : JournalInput) → Preserves (Barred id) (on_ledger (post_journal input))
  posting-Barred input =
      on_ledger-Preserves (post_journal input)
        (λ db a l e h. record { older = h.older; rows = h.rows })

  outbox-Barred : (e : OutboxEvent) → Preserves (Barred id) (enqueue_outbox e)
  unfolding enqueue_outbox
  outbox-Barred e = record { at = λ db h. record { older = h.older; rows = h.rows } }

  audit-Barred : (e : AuditEntry) → Preserves (Barred id) (audit e)
  unfolding audit
  audit-Barred e = record { at = λ db h. record { older = h.older; rows = h.rows } }

  gets-Barred : {A : Type 0} (f : Db → A) → Preserves (Barred id) (gets f)
  gets-Barred f = record { at = λ db h. h }

  lift-Barred : {A : Type 0} (r : Result A) → Preserves (Barred id) (lift {S = Db} r)
  lift-Barred (ok a) = record { at = λ db h. h }
  lift-Barred (err e) = record { at = λ db h. tt }

  record_credit-Barred :
      (t : Terms) (d : Deposit) (fee : ℕ) (r : JournalResult)
      → id ≢ d.id
      → Preserves (Barred id) (record_credit t d fee r)
  unfolding record_credit
  record_credit-Barred t d fee r ne =
      Preserves-bind (write_deposit d.id (credited_row t fee r.journal_id)) _
        (write_deposit-Barred d.id (credited_row t fee r.journal_id) ne (λ e. refl))
        (λ u.
          Preserves-bind
            (enqueue_outbox (deposit_was_credited d.id (pos d.amount -ℤ pos fee) r.journal_id)) _
            (outbox-Barred _) (λ v. audit-Barred _))

  post_credit-Barred :
      (t : Terms) (d : Deposit) (fee : ℕ) → id ≢ d.id → Preserves (Barred id) (post_credit t d fee)
  unfolding post_credit
  post_credit-Barred t d fee ne =
      search (preserves_rules, account-Barred, posting-Barred, record_credit-Barred, ne) depth 14

  hold_reason-Barred :
      (now : ℕ) (d : Deposit) (policy : DepositPolicy) (limits : Limits)
      → Preserves (Barred id) (hold_reason now d policy limits)
  unfolding hold_reason balance_reason daily_reason custody_reason
  hold_reason-Barred now d policy limits =
      search (preserves_rules, account-Barred, gets-Barred) depth 20

  after_policy-Barred :
      (t : Terms) (d : Deposit) (reason : Option PolicyReason)
      → id ≢ d.id
      → Preserves (Barred id) (after_policy t d reason)
  unfolding after_policy hold_by_policy
  after_policy-Barred t d (some reason) ne =
      search
        (
          preserves_rules,
          write_deposit-Barred d.id (held_row t reason) ne (λ e. refl),
          outbox-Barred,
        )
        depth 6
  after_policy-Barred t d none ne =
      search (preserves_rules, lift-Barred, post_credit-Barred, ne) depth 6

  after_screening-Barred :
      (t : Terms) (d : Deposit) (s : Option Screening)
      → id ≢ d.id
      → Preserves (Barred id) (after_screening t d s)
  unfolding after_screening hold_tainted policy_gate
  after_screening-Barred t d (some s) ne =
      search
        (preserves_rules, write_deposit-Barred d.id (tainted_row t s) ne (λ e. refl), outbox-Barred)
        depth 6
  after_screening-Barred t d none ne =
      search (preserves_rules, hold_reason-Barred, after_policy-Barred, ne) depth 8

  after_twin-Barred :
      (t : Terms) (d : Deposit) (twin : Option Deposit)
      → id ≢ d.id
      → Preserves (Barred id) (after_twin t d twin)
  unfolding after_twin block_duplicate
  after_twin-Barred t d (some twin) ne =
      search
        (
          preserves_rules,
          write_deposit-Barred d.id (duplicate_row t twin) ne (λ e. refl),
          outbox-Barred,
        )
        depth 6
  after_twin-Barred t d none ne = after_screening-Barred t d (tainted t d) ne

  credit_row-Barred :
      (t : Terms) (found : Option Deposit)
      → ((d : Deposit) → found ≡ some d → id ≢ d.id)
      → Preserves (Barred id) (credit_row t found)
  unfolding credit_row
  credit_row-Barred t none ne = search preserves_rules
  credit_row-Barred t (some d) ne =
      search (preserves_rules, gets-Barred, after_twin-Barred, ne d refl) depth 8

  credit_tx-Barred :
      (other : ℕ) (t : Terms) → id ≢ other → Preserves (Barred id) (credit_tx other t)
  unfolding credit_tx
  credit_tx-Barred other t ne =
      Preserves-bind_where (gets (λ db. find_deposit other db.deposits)) (credit_row t)
        (λ found. (d : Deposit) → found ≡ some d → id ≢ d.id)
        (λ s s' found e d is same.
          ne (same ∙ found_id other s.deposits d (sym (ap (λ p. p.0) (ok_inj e)) ∙ is)))
        (gets-Barred _) (credit_row-Barred t)

  -- ---------------------------------------------------------------- the calls

  pub credit-Barred :
      (aborts : ℕ → Option PgCode) (w : World) (other confirmations required : ℕ) (db : Db)
      → id ≢ other
      → Barred id db
      → Barred id (credit aborts w other confirmations required db).1
  unfolding credit credit_found
  credit-Barred aborts w other confirmations required db ne h =
      elim (Option-cases (find_deposit other db.deposits)) [
        | inl absent ↦ rw (absent, credit_found) h
        | inr (pre, found) ↦
            elim (Bool-cases
              (not (is_pending pre.status && is_final required (w.status_of pre.tx_hash)))) [
                | inl waits ↦ rw (found, credit_found) (rw waits h)
                | inr due ↦
                    rw (found, credit_found)
                      (rw due (priced (read_terms w confirmations pre db.users)))
              ]
      ]
    where
      priced : (r : Result Terms) → Barred id (with_terms aborts other r db).1
      priced (err e) = unfold with_terms in h
      priced (ok t) =
          unfold with_terms in
          with_money_transaction-keeps aborts _ db (credit_tx-Barred other t ne) h
