-- ===== src/Withdrawals/Payback.antt =====
-- What a rejection, a failure and a settlement of a withdrawal move
-- (backend/src/modules/withdrawals/withdrawals.service.ts).
use quata_trade.Prelude.{
  ℕ, ◌+◌, ◌≡◌, ◌≢◌, refl, sym, ap, ◌∙◌, ℤ, pos, neg_ℤ, ◌+ℤ◌, Bool, true, false, not, ◌&&◌, ltb,
  Option, none, some, String, List, [], ◌∷◌, Bool-cases, inl, inr, if◌then◌else◌, arith,
}
use quata_trade.Domain.{
  WithdrawalStatus, user_available, platform_pending_sweep, platform_treasury, external, rejected,
  failed, signing, broadcast, confirmed, requested, risk_hold, pending_approval,
  withdrawal_status_eq,
}
use quata_trade.Errors.{PgCode, illegal_withdrawal_state}
use quata_trade.Tx.{ok, Tx, pure, ◌>>=◌, ◌>>◌}
use quata_trade.Tx.Guards.{bind_ok, bind_runs, ok_inj, guard_ok, found_ok}
use quata_trade.Tx.Retry.{with_money_transaction-IsAtomic}
use quata_trade.Ledger.{Actor, admin_actor, system, Ledger, find_journal}
use quata_trade.Ledger.Holdings.{Ref, IsIndexed, account_of, ref_eq, moved, holding}
use quata_trade.Ledger.Movements.{Names}
use quata_trade.Ledger.Transfers.{ref}
use quata_trade.Postings.{pair_posting_ok, triple_posting_ok}
use quata_trade.Db.{Db, Withdrawal, withdrawal_confirmed, audit_withdrawal_confirmed}
use quata_trade.Escrow.Effects.{no_share}
use quata_trade.Tables.{enqueue_outbox, audit}
use quata_trade.Withdrawals.Rows.{
  find_withdrawal, write_withdrawal, lock_withdrawal, guarded_update, passes_dual_approval,
  withdrawal_key, refund_withdrawal,
}
use quata_trade.Withdrawals.Updates.{withdrawal_status_eq→eq}
use quata_trade.Withdrawals.Calls.{find_withdrawal-id, find_withdrawal-set_self}
use quata_trade.Withdrawals.Decide.{rejection, reject_and_refund, reject_tx, reject}
use quata_trade.Withdrawals.Settle.{
  settle_legs, settle, when_status, settle_confirmed, confirmation, failure, fail_and_refund,
  mark_failed,
}

abbrev pub sweep : Withdrawal → Ref
sweep w = ref none platform_pending_sweep w.asset

-- The whole charge, back to the user.
abbrev pub refund_moves : Withdrawal → List (Ref × ℤ)
refund_moves w =
    (sweep w, neg_ℤ (pos (w.amount + w.fee)))
    ∷ (ref (some w.user_id) user_available w.asset, pos (w.amount + w.fee))
    ∷ []

-- The amount out of the platform, and the fee to its treasury.
abbrev pub settle_moves : Withdrawal → List (Ref × ℤ)
settle_moves w =
    (sweep w, neg_ℤ (pos (w.amount + w.fee)))
    ∷ (ref none external w.asset, pos w.amount)
    ∷ (ref none platform_treasury w.asset, pos w.fee)
    ∷ []

-- The row of `w` has the status `to`, and these movements were made.
pub record Closed (w : Withdrawal) (to : WithdrawalStatus) (ms : List (Ref × ℤ)) (db db' : Db)
    : Type 0 where
  pub row : Withdrawal
  pub found : find_withdrawal w.id db'.withdrawals ≡ some row
  pub status : row.status ≡ to
  pub moves : (s : Ref) → holding db'.ledger s ≡ moved ms s +ℤ holding db.ledger s

refund_ok :
    (w : Withdrawal) (actor : Actor) (db db' : Db) {u : Unit {0}}
    → IsIndexed db.ledger
    → find_journal (withdrawal_key w.id "refund") db.ledger.journals ≡ none
    → refund_withdrawal w actor db ≡ ok (u, db')
    → (l : Ledger) × ((s : Ref) → holding l s ≡ moved (refund_moves w) s +ℤ holding db.ledger s)
      × (db' ≡ record db { ledger = l })
unfolding refund_withdrawal
refund_ok w actor db db' x unused h =
    let (r, a, b, l, done, rest) =
      pair_posting_ok _ _ _ _ _ (neg_ℤ (pos (w.amount + w.fee))) (pos (w.amount + w.fee)) _ _ db db'
        x (λ a b. refl) (λ a b. unused) h in
    (l, done.moves, ap (λ p. p.1) (ok_inj rest))

-- A guarded update that goes through writes the row and leaves the ledger.
record Rewritten (id : ℕ) (set : Withdrawal → Withdrawal) (db db' : Db) : Type 0 where
  row : Withdrawal
  found : find_withdrawal id db.withdrawals ≡ some row
  written : db' ≡ write_withdrawal (set row) db

updated_ok :
    (threshold id : ℕ) (expected : WithdrawalStatus) (set : Withdrawal → Withdrawal) (db db' : Db)
    {w : Withdrawal}
    → guarded_update threshold id expected set db ≡ ok (w, db')
    → Rewritten id set db db'
unfolding guarded_update
updated_ok threshold id expected set db db' h =
    let (row, found, k) =
      found_ok (find_withdrawal id db.withdrawals) (illegal_withdrawal_state expected) _ h in
    let (same, k') = guard_ok (withdrawal_status_eq row.status expected) _ _ k in
    let (fine, k'') = guard_ok (passes_dual_approval threshold row.status (set row)) _ _ k' in
    record { row = row; found = found; written = ap (λ p. p.1) (ok_inj k'') }

module _ (w : Withdrawal) (set : Withdrawal → Withdrawal) (to : WithdrawalStatus)
    (ids : (v : Withdrawal) → (set v).id ≡ v.id)
    (ends : (v : Withdrawal) → (set v).status ≡ to) where
  -- The row is updated, the money moves, and what follows leaves both.
  closed :
      (ms : List (Ref × ℤ)) (db db0 db1 db' : Db) (l : Ledger)
      → Rewritten w.id set db0 db1
      → ((s : Ref) → holding l s ≡ moved ms s +ℤ holding db.ledger s)
      → db'.ledger ≡ l
      → db'.withdrawals ≡ db1.withdrawals
      → Closed w to ms db db'
  unfolding write_withdrawal
  closed ms db db0 db1 db' l u moves ledger rows = record {
    row = set u.row;
    found =
        ap (find_withdrawal w.id) (rows ∙ ap (λ d. d.withdrawals) u.written)
        ∙ find_withdrawal-set_self w.id (set u.row) db0.withdrawals {w = u.row}
            (ids u.row ∙ find_withdrawal-id w.id db0.withdrawals u.found) u.found;
    status = ends u.row;
    moves = λ s. ap (λ k. holding k s) ledger ∙ moves s;
  }

  -- The two refunds: the update, the journal, and steps that touch neither table.
  refunding :
      {A : Type 0} (threshold : ℕ) (expected : WithdrawalStatus) (actor : Actor)
      (f : Withdrawal → Tx Db A) (db db' : Db) {a : A}
      → ((v : Withdrawal) (d d' : Db) (a : A)
          → f v d ≡ ok (a, d')
          → (d'.ledger ≡ d.ledger) × (d'.withdrawals ≡ d.withdrawals))
      → IsIndexed db.ledger
      → find_journal (withdrawal_key w.id "refund") db.ledger.journals ≡ none
      → (guarded_update threshold w.id expected set >>= λ v. refund_withdrawal w actor >>= λ u. f v)
          db
        ≡ ok (a, db')
      → Closed w to (refund_moves w) db db'
  unfolding write_withdrawal
  refunding threshold expected actor f db db' keeps x unused h =
      let (v, db1, e1, h1) = bind_ok (guarded_update threshold w.id expected set) _ db db' h in
      let u = updated_ok threshold w.id expected set db db1 e1 in
      let ledger1 : db1.ledger ≡ db.ledger = ap (λ d. d.ledger) u.written in
      let (t, db2, e2, h2) = bind_ok (refund_withdrawal w actor) _ db1 db' h1 in
      let (l, moves, at_l) =
        refund_ok w actor db1 db2 (rw ledger1 x)
          (ap (λ k. find_journal (withdrawal_key w.id "refund") k.journals) ledger1 ∙ unused) e2 in
      let (ledger2, rows2) = keeps v db2 db' _ h2 in
      closed (refund_moves w) db db db1 db' l u
        (λ s. moves s ∙ ap (λ k. moved (refund_moves w) s +ℤ holding k s) ledger1)
        (ledger2 ∙ ap (λ d. d.ledger) at_l) (rows2 ∙ ap (λ d. d.withdrawals) at_l)

module _ (threshold : ℕ) (db db' : Db) (w : Withdrawal) (x : IsIndexed db.ledger) where
  rejected_lem :
      (admin : ℕ) (reason : String) {v : Withdrawal}
      → find_journal (withdrawal_key w.id "refund") db.ledger.journals ≡ none
      → reject_and_refund threshold w admin reason db ≡ ok (v, db')
      → Closed w rejected (refund_moves w) db db'
  unfolding reject_and_refund enqueue_outbox audit
  rejected_lem admin reason unused h =
      refunding w (rejection reason) rejected (λ v. refl) (λ v. refl) threshold w.status
        (admin_actor admin) _ db db'
        (λ v d d' a e. (ap (λ p. p.1.ledger) (ok_inj e), ap (λ p. p.1.withdrawals) (ok_inj e))) x
        unused h

  failed_lem :
      (reason : String) {b : Bool}
      → find_journal (withdrawal_key w.id "refund") db.ledger.journals ≡ none
      → fail_and_refund threshold reason w db ≡ ok (b, db')
      → Closed w failed (refund_moves w) db db'
  unfolding fail_and_refund enqueue_outbox audit
  failed_lem reason unused h =
      refunding w (failure reason) failed (λ v. refl) (λ v. refl) threshold signing system _ db db'
        (λ v d d' a e. (ap (λ p. p.1.ledger) (ok_inj e), ap (λ p. p.1.withdrawals) (ok_inj e))) x
        unused h

-- ---------------------------------------------------------------- settlement

abbrev settle_moves_free : Withdrawal → List (Ref × ℤ)
settle_moves_free w =
    (sweep w, neg_ℤ (pos (w.amount + w.fee))) ∷ (ref none external w.asset, pos w.amount) ∷ []

nothing_more :
    (w : Withdrawal) (s : Ref)
    → ltb 0 w.fee ≡ false
    → moved (settle_moves_free w) s ≡ moved (settle_moves w) s
nothing_more w s h =
    let none_left : w.fee ≡ 0 = ground (arith, h) in
    sym (rw (no_share (ref_eq (ref none platform_treasury w.asset) s) w.fee none_left) refl)

settle-Names :
    (w : Withdrawal) (a b d : ℕ) (l : Ledger)
    → account_of (sweep w) l.accounts ≡ some a
    → account_of (ref none external w.asset) l.accounts ≡ some b
    → account_of (ref none platform_treasury w.asset) l.accounts ≡ some d
    → (free : Bool) → ltb 0 w.fee ≡ not free
    → Names (if free then settle_moves_free w else settle_moves w) (settle_legs w a b d) l.accounts
settle-Names w a b d l at_a at_b at_d true h = rw h (at_a, refl, (at_b, refl, tt))
settle-Names w a b d l at_a at_b at_d false h = rw h (at_a, refl, (at_b, refl, (at_d, refl, tt)))

module _ (threshold : ℕ) (db db' : Db) (w : Withdrawal) (x : IsIndexed db.ledger) where
  settled_row :
      (l : Ledger) {b : Bool}
      → ((s : Ref) → holding l s ≡ moved (settle_moves w) s +ℤ holding db.ledger s)
      → (guarded_update threshold w.id broadcast confirmation >>= λ v. (do
        enqueue_outbox (withdrawal_confirmed w.id)
        audit (audit_withdrawal_confirmed w.id)
        pure true))
          (record db { ledger = l })
        ≡ ok (b, db')
      → Closed w confirmed (settle_moves w) db db'
  unfolding enqueue_outbox audit write_withdrawal
  settled_row l moves h =
      let (v, db1, e1, h1) =
        bind_ok (guarded_update threshold w.id broadcast confirmation) _ (record db { ledger = l })
          db' h in
      let u = updated_ok threshold w.id broadcast confirmation (record db { ledger = l }) db1 e1 in
      closed w confirmation confirmed (λ v. refl) (λ v. refl) (settle_moves w) db
        (record db { ledger = l }) db1 db' l u moves
        (ap (λ p. p.1.ledger) (ok_inj h1) ∙ ap (λ d. d.ledger) u.written)
        (ap (λ p. p.1.withdrawals) (ok_inj h1))

  settled_lem :
      {b : Bool}
      → find_journal (withdrawal_key w.id "settle") db.ledger.journals ≡ none
      → settle threshold w db ≡ ok (b, db')
      → Closed w confirmed (settle_moves w) db db'
  unfolding settle
  settled_lem unused h = elim (Bool-cases (ltb 0 w.fee)) [
    | inl charged ↦
        let (r, a, b, d, l, done, rest) =
          triple_posting_ok _ _ _ _ _ _ _ (settle_moves w) _ _ db db' x
            (λ a b d l at_a at_b at_d. settle-Names w a b d l at_a at_b at_d false charged)
            (λ a b d. unused) h in
        settled_row l done.moves rest
    | inr free ↦
        let (r, a, b, d, l, done, rest) =
          triple_posting_ok _ _ _ _ _ _ _ (settle_moves_free w) _ _ db db' x
            (λ a b d l at_a at_b at_d. settle-Names w a b d l at_a at_b at_d true free)
            (λ a b d. unused) h in
        settled_row l
          (λ s. done.moves s ∙ ap (λ v. v +ℤ holding db.ledger s) (nothing_more w s free)) rest
  ]

-- ---------------------------------------------------------------- the calls

locked :
    (id : ℕ) (db : Db) {w : Withdrawal}
    → find_withdrawal id db.withdrawals ≡ some w
    → lock_withdrawal id db ≡ ok (w, db)
unfolding lock_withdrawal
locked id db found = rw (found, lock_withdrawal) refl

when_status_ok :
    (id : ℕ) (expected : WithdrawalStatus) (f : Withdrawal → Tx Db Bool) (db db' : Db)
    {w : Withdrawal}
    → find_withdrawal id db.withdrawals ≡ some w
    → when_status id expected f db ≡ ok (true, db')
    → f w db ≡ ok (true, db')
unfolding when_status
when_status_ok id expected f db db' {w} found h =
    elim (Bool-cases (withdrawal_status_eq w.status expected)) [
      | inl same ↦ rw (found, same, when_status) at h
      | inr other ↦ cc (ap (λ p. p.0) (ok_inj (rw (found, other, when_status) at h)))
    ]

-- A rejection under a fresh key that goes through, of a withdrawal that was not rejected before,
-- rejects its row and takes amount and fee out of the sweep account and gives them back to the
-- user, and leaves what everyone else holds: where account ids are unique and older than the next
-- id.
pub rejected_withdrawal_refunded :
    (aborts : ℕ → Option PgCode) (threshold admin : ℕ) (reason : String) (db db' : Db)
    (w v : Withdrawal)
    → IsIndexed db.ledger
    → find_withdrawal w.id db.withdrawals ≡ some w
    → w.status ≢ rejected
    → find_journal (withdrawal_key w.id "refund") db.ledger.journals ≡ none
    → reject aborts threshold w.id admin reason db ≡ (ok v, db')
    → Closed w rejected (refund_moves w) db db'
unfolding reject reject_tx
rejected_withdrawal_refunded aborts threshold admin reason db db' w v x found waiting unused h =
    let run : reject_tx threshold w.id admin reason db ≡ ok (v, db') =
      rw h at (with_money_transaction-IsAtomic aborts (reject_tx threshold w.id admin reason) db) in
    let rest = sym (bind_runs (lock_withdrawal w.id) _ db (locked w.id db found)) ∙ run in
    elim (Bool-cases (withdrawal_status_eq w.status rejected)) [
      | inl again ↦ absurd (waiting (withdrawal_status_eq→eq w.status rejected again))
      | inr first ↦
          elim (Bool-cases (
            not (withdrawal_status_eq w.status requested)
            && not (withdrawal_status_eq w.status risk_hold)
            && not (withdrawal_status_eq w.status pending_approval))) [
              | inl late ↦ cc (rw (first, late) at rest)
              | inr early ↦
                  rejected_lem threshold db db' w x admin reason unused (rw (first, early) at rest)
            ]
    ]

-- A failure of a withdrawal in signing, under a fresh key, marks its row as failed and gives amount
-- and fee back to the user out of the sweep account, and leaves what everyone else holds: where
-- account ids are unique and older than the next id.
pub failed_withdrawal_refunded :
    (cut : String → String) (aborts : ℕ → Option PgCode) (threshold : ℕ) (reason : String)
    (db db' : Db) (w : Withdrawal)
    → IsIndexed db.ledger
    → find_withdrawal w.id db.withdrawals ≡ some w
    → find_journal (withdrawal_key w.id "refund") db.ledger.journals ≡ none
    → mark_failed cut aborts threshold w.id reason db ≡ (ok true, db')
    → Closed w failed (refund_moves w) db db'
unfolding mark_failed
failed_withdrawal_refunded cut aborts threshold reason db db' w x found unused h =
    failed_lem threshold db db' w x (cut reason) unused (
      when_status_ok w.id signing (fail_and_refund threshold (cut reason)) db db' found (
        rw h at (
          with_money_transaction-IsAtomic aborts
            (when_status w.id signing (fail_and_refund threshold (cut reason))) db)))

-- A settlement of a broadcast withdrawal, under a fresh key, confirms its row and takes amount and
-- fee out of the sweep account: the amount leaves the platform, the fee goes to the treasury, and
-- what everyone else holds stays: where account ids are unique and older than the next id.
pub settled_withdrawal_pays :
    (aborts : ℕ → Option PgCode) (threshold : ℕ) (db db' : Db) (w : Withdrawal)
    → IsIndexed db.ledger
    → find_withdrawal w.id db.withdrawals ≡ some w
    → find_journal (withdrawal_key w.id "settle") db.ledger.journals ≡ none
    → settle_confirmed aborts threshold w.id db ≡ (ok true, db')
    → Closed w confirmed (settle_moves w) db db'
unfolding settle_confirmed
settled_withdrawal_pays aborts threshold db db' w x found unused h =
    settled_lem threshold db db' w x unused (
      when_status_ok w.id broadcast (settle threshold) db db' found (
        rw h at (
          with_money_transaction-IsAtomic aborts (when_status w.id broadcast (settle threshold))
            db)))
