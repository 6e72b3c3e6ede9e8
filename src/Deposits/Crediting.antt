-- ===== src/Deposits/Crediting.antt =====
-- The journal of a credit keeps the balances as the table of deposits shows them
-- (backend/src/modules/deposits/deposit-confirmation.service.ts).
use quata_trade.Prelude.{
  ℕ, ℤ, pos, neg_ℤ, ◌+ℤ◌, ◌-ℤ◌, +ℤ_assoc, ◌≡◌, refl, ap, sym, ◌∙◌, true, false, Option, none, some,
  List, ◌∷◌, ltb, arith,
}
use quata_trade.Domain.{external, user_available, platform_treasury, AccountKind, AssetCode}
use quata_trade.Tx.{ok, ◌>>◌}
use quata_trade.Tx.Guards.{ok_inj}
use quata_trade.Tx.Ensures.{Ensures, Ensures-run, Ensures-ite}
use quata_trade.Ledger.{Ledger, Leg, JournalResult, find_journal, get_or_create_account}
use quata_trade.Ledger.Holdings.{Ref, moved, holding}
use quata_trade.Ledger.Transfers.{Transferred, Grown, grow, not-Grown}
use quata_trade.Postings.{
  pair_posting, pair_moves, triple_posting, pair_posting_ok, triple_posting_ok, on_ledger_ok,
}
use quata_trade.Db.{
  Db, Deposit, OutboxEvent, on_ledger, deposit_was_credited, audit_deposit_credited,
}
use quata_trade.Tables.{enqueue_outbox, audit}
use quata_trade.Deposits.Rows.{is_pending, find_deposit, update_deposit, write_deposit}
use quata_trade.Deposits.{
  Terms, deposit_key, deposit_input, fee_legs, plain_legs, credited_row, record_credit, post_credit,
}
use quata_trade.Deposits.Shown.{
  Shown, moves_of, is_paid, deposit_moves, SameMoney, update_deposit-Quiet, Shown-Quiet,
}
use quata_trade.Deposits.Paying.{
  Waits-at, unpaid, UniqueTransfers-credited, waiting-credited, unpaid_after,
  deposit_moves-credited, moved_plain, other_key,
}

-- The row is there, and waits.
pub record Ready (base : Ref → ℤ) (d : Deposit) (db : Db) : Type 0 where
  pub shown : Shown base db
  pub found : find_deposit d.id db.deposits ≡ some d
  pub pending : is_pending d.status ≡ true

module _ (base : Ref → ℤ) where
  Shown-Grown :
      (db : Db) (l : Ledger)
      → Shown base db
      → Grown db.ledger l
      → Shown base (record db { ledger = l })
  Shown-Grown db l h g = record {
    indexed = g.indexed;
    unique = h.unique;
    waiting = h.waiting;
    free = λ tx log p. ap (find_journal (deposit_key tx log)) g.journals ∙ h.free tx log p;
    shows = λ t. g.same t ∙ h.shows t;
  }

  pub account-Ready :
      (d : Deposit) (o : Option ℕ) (k : AccountKind) (c : AssetCode)
      → Ensures (Ready base d) (Ready base d) (on_ledger (get_or_create_account o k c))
  account-Ready d o k c = Ensures-run (on_ledger (get_or_create_account o k c)) λ db db' a h e.
      let (l, called, same) = on_ledger_ok (get_or_create_account o k c) db db' e in
      let grown : Grown db.ledger l =
        (grow db.ledger o k c (not-Grown db.ledger h.shown.indexed) called).0 in
      rw same
        (record { shown = Shown-Grown db l h.shown grown; found = h.found; pending = h.pending })

  -- ---------------------------------------------------------------- the credit itself

  module _ (t : Terms) (d : Deposit) (fee : ℕ) where
    abbrev credited_state : Db → Ledger → ℕ → Db
    credited_state db l journal = record db {
      ledger = l;
      deposits = update_deposit d.id (credited_row t fee journal) db.deposits;
      outbox = deposit_was_credited d.id (pos d.amount -ℤ pos fee) journal ∷ db.outbox;
      audit_log = audit_deposit_credited d.id (pos d.amount -ℤ pos fee) journal ∷ db.audit_log;
    }

    paid_up :
        (db : Db) (l : Ledger) (legs : List Leg) (ms : List (Ref × ℤ)) (journal : ℕ)
        → Ready base d db
        → ((r : Ref) → moved ms r ≡ moved (moves_of d fee) r)
        → Transferred ms (deposit_input d legs) db.ledger l
        → Shown base (credited_state db l journal)
    unfolding find_journal
    paid_up db l legs ms journal h same done =
        let unpaid_row : is_paid d ≡ false =
          Waits-at d.id db.deposits d h.found h.shown.waiting h.pending in
        record {
          indexed = done.indexed;
          unique = UniqueTransfers-credited t fee journal d.id db.deposits h.shown.unique;
          waiting = waiting-credited t fee journal d.id db.deposits h.shown.waiting;
          free = λ tx log p.
              let (apart, before) =
                unpaid_after t fee journal d.id tx log db.deposits d h.found unpaid_row p in
              let (id, newest) = done.recorded in
              ap (find_journal (deposit_key tx log)) newest
              ∙ rw (other_key d tx log apart) (h.shown.free tx log before);
          shows = λ r.
              done.moves r
              ∙ ap (λ v. v +ℤ holding db.ledger r) (same r)
              ∙ ap (λ v. moved (moves_of d fee) r +ℤ v) (h.shown.shows r)
              ∙ sym (+ℤ_assoc (moved (moves_of d fee) r) (deposit_moves db.deposits r) (base r))
              ∙ ap (λ v. v +ℤ base r)
                  (sym
                    (deposit_moves-credited t fee journal d.id r db.deposits d h.found unpaid_row));
        }

    recorded_state :
        (r : JournalResult) (db db' : Db) (l : Ledger) (x : Unit {0})
        → record_credit t d fee r (record db { ledger = l }) ≡ ok (x, db')
        → db' ≡ credited_state db l r.journal_id
    unfolding record_credit write_deposit enqueue_outbox audit
    recorded_state r db db' l x h = ap (λ p. p.1) (ok_inj h)

    unused :
        (db : Db)
        → Ready base d db
        → find_journal (deposit_key d.tx_hash d.log_index) db.ledger.journals ≡ none
    unused db h = h.shown.free d.tx_hash d.log_index (
        unpaid d.id db.deposits d h.found h.shown.unique
          (Waits-at d.id db.deposits d h.found h.shown.waiting h.pending))

    pub post_credit-Shown : Ensures (Ready base d) (Shown base) (post_credit t d fee)
    unfolding post_credit
    post_credit-Shown =
        Ensures-ite (ltb 0 fee) _ _ (λ positive. Ensures-run _ with_fee)
          (λ zero_fee. Ensures-run _ (plain zero_fee))
      where
        with_fee :
            (db db' : Db) (x : Unit {0})
            → Ready base d db
            → triple_posting none
                (some d.user_id)
                none
                external
                user_available
                platform_treasury
                d.asset
                (moves_of d fee)
                (λ a b c. deposit_input d (fee_legs d fee a b c))
                (record_credit t d fee)
                db
              ≡ ok (x, db')
            → Shown base db'
        with_fee db db' x h run =
            let (r, a, b, c, l, done, rest) =
              triple_posting_ok none (some d.user_id) none external user_available platform_treasury
                d.asset (moves_of d fee) (λ a b c. deposit_input d (fee_legs d fee a b c))
                (record_credit t d fee) db db' h.shown.indexed
                (λ a b c l at_a at_b at_c. (at_a, refl, (at_b, refl, (at_c, refl, tt))))
                (λ a b c. unused db h) run in
            rw (recorded_state r db db' l x rest)
              (paid_up db l (fee_legs d fee a b c) (moves_of d fee) r.journal_id h (λ q. refl) done)

        plain :
            ltb 0 fee ≡ false
            → (db db' : Db) (x : Unit {0}) → Ready base d db
            → pair_posting none
                (some d.user_id)
                external
                user_available
                d.asset
                (neg_ℤ (pos d.amount))
                (pos d.amount)
                (λ a b. deposit_input d (plain_legs d a b))
                (record_credit t d fee)
                db
              ≡ ok (x, db')
            → Shown base db'
        plain zero_fee db db' x h run =
            let (r, a, b, l, done, rest) =
              pair_posting_ok none (some d.user_id) external user_available d.asset
                (neg_ℤ (pos d.amount)) (pos d.amount) (λ a b. deposit_input d (plain_legs d a b))
                (record_credit t d fee) db db' h.shown.indexed (λ a b. refl) (λ a b. unused db h)
                run in
            let none_due : 0 ≡ fee = ground arith in
            rw (recorded_state r db db' l x rest) (
              paid_up db l (plain_legs d a b)
                (pair_moves none (some d.user_id) external user_available d.asset
                  (neg_ℤ (pos d.amount)) (pos d.amount) (λ a b. deposit_input d (plain_legs d a b))
                  (record_credit t d fee))
                r.journal_id h
                (λ q. moved_plain d q ∙ ap (λ (n : ℕ). moved (moves_of d n) q) none_due) done)

    -- ---------------------------------------------------------------- the gates

    pub quiet_write :
        (set : Deposit → Deposit) (e : OutboxEvent)
        → ((x : Deposit) → SameMoney x (set x))
        → Ensures (Ready base d) (Shown base) (write_deposit d.id set >> enqueue_outbox e)
    unfolding write_deposit enqueue_outbox
    quiet_write set e k = record {
      at = λ db h. Shown-Quiet db _ h.shown refl (update_deposit-Quiet d.id set db.deposits k);
    }
