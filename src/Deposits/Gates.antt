-- ===== src/Deposits/Gates.antt =====
-- The transaction that credits a deposit, with its gates, keeps the balances as the table of deposits
-- shows them (backend/src/modules/deposits/deposit-confirmation.service.ts).
use quata_trade.Prelude.{
  ℕ, ◌+◌, ltb_ℤ, ℤ, pos, ◌+ℤ◌, ◌≡◌, refl, ap, sym, ◌∙◌, true, Option, none, some, ltb,
  if◌then◌else◌,
}
use quata_trade.Domain.{user_available}
use quata_trade.Tx.{Tx, ◌>>=◌, lift, gets, pure}
use quata_trade.Tx.Guards.{ok_inj, lift_ok}
use quata_trade.Tx.Ensures.{Ensures, Ensures-bind, Ensures-ite, Ensures-then}
use quata_trade.Ledger.{balance_of}
use quata_trade.Ledger.Holdings.{Ref}
use quata_trade.Db.{
  Db, Deposit, PolicyReason, below_minimum, above_maximum, above_user_balance, above_daily_limit,
}
use quata_trade.Deposits.Rows.{is_pending, find_deposit, find_twin}
use quata_trade.Deposits.Policy.{
  hold_reason, balance_reason, daily_reason, custody_reason, credited_since, exceeds_maximum,
  Limits,
}
use quata_trade.Deposits.{
  Terms, Screening, post_credit, deposit_fee, block_duplicate, hold_tainted, hold_by_policy,
  tainted, policy_gate, after_policy, after_screening, after_twin, credit_row, credit_tx,
  is_released,
}
use quata_trade.Deposits.Shown.{Shown}
use quata_trade.Deposits.Paying.{found_id}
use quata_trade.Deposits.Crediting.{Ready, account-Ready, post_credit-Shown, quiet_write}

module _ (base : Ref → ℤ) where
  reads :
      {A B : Type 0} (d : Deposit) (f : Db → A) (k : A → Tx Db B)
      → ((a : A) → Ensures (Ready base d) (Ready base d) (k a))
      → Ensures (Ready base d) (Ready base d) (gets f >>= k)
  reads d f k h = record { at = λ db r. (h (f db)).at db r }

  answers : {A : Type 0} (d : Deposit) (a : A) → Ensures (Ready base d) (Ready base d) (pure a)
  answers d a = record { at = λ db h. h }

  custody_reason-Ready :
      (d : Deposit) (limits : Limits)
      → Ensures (Ready base d) (Ready base d) (custody_reason d limits)
  unfolding custody_reason
  custody_reason-Ready d limits =
      Ensures-ite (ltb 0 limits.max_platform_custody) _ _ (λ e. record { at = λ db h. h })
        (λ e. answers d none)

  daily_reason-Ready :
      (now : ℕ) (d : Deposit) (limits : Limits)
      → Ensures (Ready base d) (Ready base d) (daily_reason now d limits)
  unfolding daily_reason
  daily_reason-Ready now d limits =
      Ensures-ite (ltb 0 limits.max_daily_deposit_per_user) _ _
        (λ e.
          reads d (λ db. credited_since now d db.deposits)
            (λ sum.
              if ltb limits.max_daily_deposit_per_user (sum + d.amount)
              then pure (some above_daily_limit)
              else custody_reason d limits)
            (λ sum.
              Ensures-ite (ltb limits.max_daily_deposit_per_user (sum + d.amount)) _ _
                (λ g. answers d (some above_daily_limit)) (λ g. custody_reason-Ready d limits)))
        (λ e. custody_reason-Ready d limits)

  over_balance : ℕ → Deposit → Limits → ℤ → Tx Db (Option PolicyReason)
  over_balance now d limits balance =
      if ltb_ℤ (pos limits.max_user_balance) (balance +ℤ pos d.amount)
      then pure (some above_user_balance)
      else daily_reason now d limits

  balance_reason-Ready :
      (now : ℕ) (d : Deposit) (limits : Limits)
      → Ensures (Ready base d) (Ready base d) (balance_reason now d limits)
  unfolding balance_reason over_balance
  balance_reason-Ready now d limits =
      Ensures-ite (ltb 0 limits.max_user_balance) _ _
        (λ e. Ensures-then (account-Ready base d (some d.user_id) user_available d.asset) (λ a.
          reads d (λ db. balance_of a db.ledger.balances) (over_balance now d limits)
            (λ b.
              Ensures-ite (ltb_ℤ (pos limits.max_user_balance) (b +ℤ pos d.amount)) _ _
                (λ g. answers d (some above_user_balance)) (λ g. daily_reason-Ready now d limits))))
        (λ e. daily_reason-Ready now d limits)

  policy_gate-Ready :
      (t : Terms) (d : Deposit) → Ensures (Ready base d) (Ready base d) (policy_gate t d)
  unfolding policy_gate hold_reason
  policy_gate-Ready t d =
      Ensures-ite (is_released d.hold_resolution) _ _ (λ e. answers d none)
        (λ e.
          Ensures-ite (ltb d.amount t.policy.min_amount) _ _ (λ g. answers d (some below_minimum))
            (λ g.
              Ensures-ite (exceeds_maximum d.amount t.policy.max_amount) _ _
                (λ k. answers d (some above_maximum)) (λ k. balance_reason-Ready t.now d t.limits)))

  module _ (t : Terms) (d : Deposit) where
    after_policy-Shown :
        (reason : Option PolicyReason)
        → Ensures (Ready base d) (Shown base) (after_policy t d reason)
    unfolding after_policy hold_by_policy
    after_policy-Shown (some reason) = quiet_write base t d 0 _ _ (λ x. record {
      tx = refl;
      log = refl;
      is_paid_same = refl;
      moves = λ r. refl;
      pending = λ h. h;
    })
    after_policy-Shown none =
        Ensures-bind (lift (deposit_fee t d)) (post_credit t d) (λ fee. Ready base d)
          (λ s s' fee h e. rw ((lift_ok (deposit_fee t d) s s' e).1) h)
          (λ fee. post_credit-Shown base t d fee)

    after_screening-Shown :
        (s : Option Screening) → Ensures (Ready base d) (Shown base) (after_screening t d s)
    unfolding after_screening hold_tainted
    after_screening-Shown (some s) = quiet_write base t d 0 _ _ (λ x. record {
      tx = refl;
      log = refl;
      is_paid_same = refl;
      moves = λ r. refl;
      pending = λ h. h;
    })
    after_screening-Shown none = Ensures-then (policy_gate-Ready t d) after_policy-Shown

    after_twin-Shown :
        (twin : Option Deposit) → Ensures (Ready base d) (Shown base) (after_twin t d twin)
    unfolding after_twin block_duplicate
    after_twin-Shown (some twin) = quiet_write base t d 0 _ _ (λ x. record {
      tx = refl;
      log = refl;
      is_paid_same = refl;
      moves = λ r. refl;
      pending = λ h. cc;
    })
    after_twin-Shown none = after_screening-Shown (tainted t d)

  -- What was read is the row of that id.
  abbrev Read : ℕ → Option Deposit → Db → Type 0
  Read id found db = Shown base db × (found ≡ find_deposit id db.deposits)

  ready :
      (id : ℕ) (d : Deposit) (db : Db)
      → Read id (some d) db
      → is_pending d.status ≡ true
      → Ready base d db
  ready id d db h p =
      let found : find_deposit id db.deposits ≡ some d = sym h.1 in
      record {
        shown = h.0;
        found =
            ap (λ (n : ℕ). find_deposit n db.deposits) (found_id id db.deposits d found) ∙ found;
        pending = p;
      }

  credit_row-Shown :
      (id : ℕ) (t : Terms) (found : Option Deposit)
      → Ensures (Read id found) (Shown base) (credit_row t found)
  unfolding credit_row
  credit_row-Shown id t none = record { at = λ db h. h.0 }
  credit_row-Shown id t (some d) =
      Ensures-ite (is_pending d.status) _ _
        (λ p. record {
          at = λ db h. (after_twin-Shown t d (find_twin d db.deposits)).at db (ready id d db h p);
        })
        (λ p. record { at = λ db h. h.0 })

  pub credit_tx-Shown : (id : ℕ) (t : Terms) → Ensures (Shown base) (Shown base) (credit_tx id t)
  unfolding credit_tx
  credit_tx-Shown id t =
      Ensures-bind (gets (λ db. find_deposit id db.deposits)) (credit_row t) (Read id)
        (λ s s' found h e.
          let same : s' ≡ s = ap (λ p. p.1) (ok_inj e) in
          (
            rw same h,
            ap (λ p. p.0) (ok_inj e) ∙ ap (λ (db : Db). find_deposit id db.deposits) (sym same),
          ))
        (credit_row-Shown id t)
