-- ===== src/Withdrawals/Calls.antt =====
-- The life of one withdrawal, and the theorems on any sequence of calls of WithdrawalsService
-- (backend/src/modules/withdrawals/withdrawals.service.ts) after the request.
use quata_trade.Prelude.{
  ℕ, ◌≡◌, refl, sym, ◌∙◌, Bool, true, false, Option, some, Bool-cases, inl, inr, String, List, [],
  ◌∷◌, ◌==◌, ==→eq, ◌≢◌, arith,
}
use quata_trade.Domain.{WithdrawalStatus, confirmed, rejected, failed, AdminRole}
use quata_trade.Errors.{PgCode}
use quata_trade.Tx.Preserves.{with_money_transaction-keeps, execute-keeps}
use quata_trade.Db.{Db, Withdrawal}
use quata_trade.Withdrawals.Rows.{find_withdrawal, set_withdrawal, write_withdrawal}
use quata_trade.Withdrawals.Decide.{approve, reject}
use quata_trade.Withdrawals.Settle.{
  claim_for_signing, mark_broadcast, settle_confirmed, mark_failed,
}
use quata_trade.Withdrawals.Updates.{is_step, SameWithdrawal}
use quata_trade.Withdrawals.Life.{
  Admits, approve-Preserves, reject-Preserves, settle_confirmed-Preserves, mark_failed-Preserves,
  claim_for_signing-keeps, mark_broadcast-keeps,
}
use quata_trade.Withdrawals.History.{
  Keeping, OnRows, OnRows-Admits, AllDualApproved, AllDualApproved-Keeping,
}

-- ------------------------------------------------- one withdrawal

-- A path along the service's steps.
pub data Course (s : WithdrawalStatus) : WithdrawalStatus → Type 0 where
  start : Course s s
  onward : {t u : WithdrawalStatus} → Course s t → is_step t u ≡ true → Course s u

-- The row of a withdrawal that was `w`: the same terms, and a status on a path from that of `w`.
abbrev pub Continues : Withdrawal → List Withdrawal → Type 0
Continues w ws =
    (v : Withdrawal) × (find_withdrawal w.id ws ≡ some v)
    × SameWithdrawal w v
    × Course w.status v.status

pub find_withdrawal-id :
    (id : ℕ) (ws : List Withdrawal) {w : Withdrawal} → find_withdrawal id ws ≡ some w → w.id ≡ id
unfolding find_withdrawal
find_withdrawal-id id [] h = cc
find_withdrawal-id id (x ∷ ws) {w} h = ground (arith, find_withdrawal-id id ws {w = w})

pub find_withdrawal-set_self :
    (id : ℕ) (v : Withdrawal) (ws : List Withdrawal) {w : Withdrawal}
    → v.id ≡ id
    → find_withdrawal id ws ≡ some w
    → find_withdrawal id (set_withdrawal v ws) ≡ some v
unfolding find_withdrawal set_withdrawal
find_withdrawal-set_self id v [] h k = cc
find_withdrawal-set_self id v (x ∷ ws) {w} h k =
    ground (arith, find_withdrawal-set_self id v ws {w = w} h)

find_withdrawal-set_other :
    (id : ℕ) (v : Withdrawal) (ws : List Withdrawal)
    → id ≢ v.id
    → find_withdrawal id (set_withdrawal v ws) ≡ find_withdrawal id ws
unfolding find_withdrawal set_withdrawal
find_withdrawal-set_other id v [] h = refl
find_withdrawal-set_other id v (x ∷ ws) h = ground (arith, find_withdrawal-set_other id v ws h)

SameWithdrawal-trans :
    {u v w : Withdrawal} → SameWithdrawal u v → SameWithdrawal v w → SameWithdrawal u w
SameWithdrawal-trans a b = record {
  id = b.id ∙ a.id;
  user = b.user ∙ a.user;
  asset = b.asset ∙ a.asset;
  amount = b.amount ∙ a.amount;
  fee = b.fee ∙ a.fee;
  address = b.address ∙ a.address;
  key = b.key ∙ a.key;
}

SameWithdrawal-self : (w : Withdrawal) → SameWithdrawal w w
SameWithdrawal-self w = record {
  id = refl;
  user = refl;
  asset = refl;
  amount = refl;
  fee = refl;
  address = refl;
  key = refl;
}

Continues-Keeping :
    (threshold : ℕ) (w : Withdrawal) → Keeping threshold (OnRows threshold (Continues w))
unfolding Keeping write_withdrawal
Continues-Keeping threshold w db row id expected set u found same passes (v, at_v, terms, path) =
    elim (Bool-cases (w.id == id)) [
      | inl here ↦
          let w_row : find_withdrawal w.id db.withdrawals ≡ some row =
            rw (==→eq w.id id here) found in
          let is_v : v ≡ row = cc (sym at_v ∙ w_row) in
          let v_terms : SameWithdrawal w row = rw is_v at terms in
          let v_path : Course w.status row.status = rw is_v at path in
          (
            set row,
            find_withdrawal-set_self w.id (set row) db.withdrawals {w = row}
                ((u.terms row).id ∙ v_terms.id) w_row,
            SameWithdrawal-trans v_terms (u.terms row),
            onward v_path (rw (sym same) at (u.step row)),
          )
      | inr other ↦ (
        v,
        find_withdrawal-set_other w.id (set row) db.withdrawals
              (λ e. other_id (find_withdrawal-id id db.withdrawals found) e (u.terms row).id other)
            ∙ at_v,
        terms,
        path,
      )
    ]
  where
    other_id : row.id ≡ id → w.id ≡ (set row).id → (set row).id ≡ row.id → (w.id == id) ≡ false → ⊥
    other_id a b c d = ground (arith, a, b, c, d)

-- ------------------------------------------------- any sequence of calls

pub data WithdrawalCall : Type 0 where
  approval : (id admin : ℕ) → AdminRole → WithdrawalCall
  refusal : (id admin : ℕ) → String → WithdrawalCall
  claiming : (id : ℕ) → WithdrawalCall
  broadcasted : (id tx_hash : ℕ) → WithdrawalCall
  settlement : (id : ℕ) → WithdrawalCall
  failing : (id : ℕ) → String → WithdrawalCall

module _ (cut : String → String) (threshold : ℕ) where
  unfoldable pub run_withdrawal : (ℕ → Option PgCode) → WithdrawalCall → Db → Db
  run_withdrawal aborts (approval id admin role) db = (approve threshold id admin role db).1
  run_withdrawal aborts (refusal id admin reason) db =
      (reject aborts threshold id admin reason db).1
  run_withdrawal aborts (claiming id) db = (claim_for_signing id db).1
  run_withdrawal aborts (broadcasted id tx_hash) db = (mark_broadcast id tx_hash db).1
  run_withdrawal aborts (settlement id) db = (settle_confirmed aborts threshold id db).1
  run_withdrawal aborts (failing id why) db = (mark_failed cut aborts threshold id why db).1

  unfoldable pub run_withdrawals : List ((ℕ → Option PgCode) × WithdrawalCall) → Db → Db
  run_withdrawals [] db = db
  run_withdrawals ((aborts, call) ∷ calls) db =
      run_withdrawals calls (run_withdrawal aborts call db)

module _ {P : Db → Type 0} (cut : String → String) {threshold : ℕ} (a : Admits threshold P) where
  run_withdrawal-keeps :
      (aborts : ℕ → Option PgCode) (call : WithdrawalCall) (db : Db)
      → P db
      → P (run_withdrawal cut threshold aborts call db)
  unfolding run_withdrawal approve reject settle_confirmed mark_failed
  run_withdrawal-keeps aborts (approval id admin role) db h =
      execute-keeps _ db (approve-Preserves a id admin role) h
  run_withdrawal-keeps aborts (refusal id admin reason) db h =
      with_money_transaction-keeps aborts _ db (reject-Preserves a id admin reason) h
  run_withdrawal-keeps aborts (claiming id) db h = claim_for_signing-keeps a id db h
  run_withdrawal-keeps aborts (broadcasted id tx_hash) db h = mark_broadcast-keeps a id tx_hash db h
  run_withdrawal-keeps aborts (settlement id) db h =
      with_money_transaction-keeps aborts _ db (settle_confirmed-Preserves a id) h
  run_withdrawal-keeps aborts (failing id why) db h =
      with_money_transaction-keeps aborts _ db (mark_failed-Preserves a id (cut why)) h

  run_withdrawals-keeps :
      (calls : List ((ℕ → Option PgCode) × WithdrawalCall)) (db : Db)
      → P db
      → P (run_withdrawals cut threshold calls db)
  unfolding run_withdrawals
  run_withdrawals-keeps [] db h = h
  run_withdrawals-keeps ((aborts, call) ∷ calls) db h =
      run_withdrawals-keeps calls (run_withdrawal cut threshold aborts call db)
        (run_withdrawal-keeps aborts call db h)

-- While the threshold stays, any sequence of decisions and settlements keeps it so that every
-- withdrawal in a released status whose amount reaches the threshold has two different approvers.
pub released_dual_approved :
    (cut : String → String) (threshold : ℕ) (calls : List ((ℕ → Option PgCode) × WithdrawalCall))
    (db : Db)
    → AllDualApproved threshold db.withdrawals
    → AllDualApproved threshold (run_withdrawals cut threshold calls db).withdrawals
released_dual_approved cut threshold calls db h =
    run_withdrawals-keeps cut
      (OnRows-Admits threshold (AllDualApproved threshold) (AllDualApproved-Keeping threshold))
      calls db h

-- After any sequence of decisions and settlements the row of a withdrawal that was there before is
-- still there, with its user, asset, amount, fee, address and key unchanged, and its status is
-- reached from the earlier one by the steps of the service alone.
pub withdrawal_keeps_course :
    (cut : String → String) (threshold : ℕ) (calls : List ((ℕ → Option PgCode) × WithdrawalCall))
    (db : Db) (w : Withdrawal)
    → find_withdrawal w.id db.withdrawals ≡ some w
    → Continues w (run_withdrawals cut threshold calls db).withdrawals
withdrawal_keeps_course cut threshold calls db w h =
    run_withdrawals-keeps cut
      (OnRows-Admits threshold (Continues w) (Continues-Keeping threshold w)) calls db
      (w, h, SameWithdrawal-self w, start)

-- The statuses that end a withdrawal.
abbrev pub is_settled : WithdrawalStatus → Bool
is_settled confirmed = true
is_settled rejected = true
is_settled failed = true
is_settled _ = false

settled-is_step : (s u : WithdrawalStatus) → is_settled s ≡ true → is_step s u ≡ false
unfolding is_step
settled-is_step s u h = ground arith

Course-settled : {s u : WithdrawalStatus} → is_settled s ≡ true → Course s u → u ≡ s
Course-settled h start = refl
Course-settled {s} {u} h (onward {t} p step) =
    let same : t ≡ s = Course-settled h p in cc (settled-is_step s u h, rw same at step)

-- A withdrawal that is confirmed, rejected or failed stays so, whatever is called.
pub settled_withdrawal_stays :
    (cut : String → String) (threshold : ℕ) (calls : List ((ℕ → Option PgCode) × WithdrawalCall))
    (db : Db) (w : Withdrawal)
    → find_withdrawal w.id db.withdrawals ≡ some w
    → is_settled w.status ≡ true
    → (v : Withdrawal) × (find_withdrawal w.id (run_withdrawals cut threshold calls db).withdrawals
        ≡ some v)
      × (v.status ≡ w.status)
settled_withdrawal_stays cut threshold calls db w h settled =
    let (v, found, terms, path) = withdrawal_keeps_course cut threshold calls db w h in
    (v, found, Course-settled settled path)
