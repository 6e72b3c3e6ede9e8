-- ===== src/Withdrawals/Recorded.antt =====
-- What the transaction of `request` records (WithdrawalsService,
-- backend/src/modules/withdrawals/withdrawals.service.ts).
use quata_trade.Prelude.{
  ℕ, ◌+◌, ◌*◌, ◌-◌, ◌≤◌, ◌≡◌, refl, ◌∙◌, ap, false, Option, none, some, List, arith, ltb,
}
use quata_trade.Domain.{AssetCode, AccountKind, user_available, platform_pending_sweep}
use quata_trade.Errors.{withdrawal_cap_exceeded, daily}
use quata_trade.Tx.{gets}
use quata_trade.Tx.Guards.{ok_inj}
use quata_trade.Tx.Preserves.{Preserves}
use quata_trade.Tx.Returns.{
  Returns, Returns-pure, Returns-if, Returns-guard, Returns-bind, Returns-bind_where, Returns-then,
}
use quata_trade.Ledger.{JournalInput, get_or_create_account, post_journal}
use quata_trade.Db.{Db, User, Withdrawal, on_ledger}
use quata_trade.Risk.{score_withdrawal_risk}
use quata_trade.Escrow.History.{on_ledger-Preserves}
use quata_trade.Tables.{new_id, enqueue_outbox, audit}
use quata_trade.Withdrawals.Request.{
  WithdrawalRequest, Outside, find_by_key, daily_withdrawn_amount, initial_status, min_limit,
  insert_withdrawal, replay_request, prior_count, recent_count, record_request, debit_request,
  capped_request, request_tx,
}

-- What the transaction settles about the row, for a user whose withdrawals are `ws`.
pub record IsRecorded (o : Outside) (user : User) (dto : WithdrawalRequest) (fee : ℕ)
    (ws : List Withdrawal) (w : Withdrawal) : Type 0 where
  pub owner : w.user_id ≡ user.id
  pub asset : w.asset ≡ dto.asset
  pub destination : w.to_address ≡ dto.to_address
  pub amount : w.amount ≡ dto.amount
  pub charge : w.fee ≡ fee
  pub status : w.status ≡ (initial_status o w.risk_score dto.amount).0
  pub below_caps :
      daily_withdrawn_amount user.id o.start_of_day ws + dto.amount
      ≤ min_limit o.daily_max (o.tier_daily_withdrawal user.kyc_tier)

under : (limit n : ℕ) → ltb limit n ≡ false → n ≤ limit
under limit n h = ground arith

module _ (o : Outside) (user : User) (dto : WithdrawalRequest) (fee : ℕ)
    (ws : List Withdrawal) where
  abbrev pub Lists : Db → Type 0
  Lists db = db.withdrawals ≡ ws

  replay_lem :
      find_by_key dto.idempotency_key ws ≡ none
      → Returns Lists (IsRecorded o user dto fee ws) (replay_request user.id dto.idempotency_key)
  unfolding replay_request
  replay_lem fresh = record {
    at = λ db h.
        let absent : find_by_key dto.idempotency_key db.withdrawals ≡ none =
          ap (find_by_key dto.idempotency_key) h ∙ fresh in
        rw (absent, replay_request) tt;
  }

  record_lem :
      (score id journal_id : ℕ)
      → daily_withdrawn_amount user.id o.start_of_day ws + dto.amount
        ≤ min_limit o.daily_max (o.tier_daily_withdrawal user.kyc_tier)
      → Returns Lists
          (IsRecorded o user dto fee ws)
          (record_request o user dto fee score id (initial_status o score dto.amount) journal_id)
  unfolding record_request
  record_lem score id journal_id caps =
      Returns-then (insert_withdrawal o.dual_approval_threshold _) _ (λ a.
        Returns-then (enqueue_outbox _) _ (λ b. Returns-then _ _ (λ c.
          Returns-then (audit _) _ (λ d. Returns-pure _ (record {
            owner = refl;
            asset = refl;
            destination = refl;
            amount = refl;
            charge = refl;
            status = refl;
            below_caps = caps;
          })))))

  account-Lists :
      (owner : Option ℕ) (k : AccountKind) (c : AssetCode)
      → Preserves Lists (on_ledger (get_or_create_account owner k c))
  account-Lists owner k c = on_ledger-Preserves (get_or_create_account owner k c) (λ db a l e h. h)

  posting-Lists : (input : JournalInput) → Preserves Lists (on_ledger (post_journal input))
  posting-Lists input = on_ledger-Preserves (post_journal input) (λ db a l e h. h)

  id-Lists : Preserves Lists new_id
  unfolding new_id
  id-Lists = record { at = λ db h. h }

  gets-Lists : {A : Type 0} (f : Db → A) → Preserves Lists (gets f)
  gets-Lists f = record { at = λ db h. h }

  module _ (fresh : find_by_key dto.idempotency_key ws ≡ none) where
    debit_lem :
        (score : ℕ)
        → daily_withdrawn_amount user.id o.start_of_day ws + dto.amount
          ≤ min_limit o.daily_max (o.tier_daily_withdrawal user.kyc_tier)
        → Returns Lists (IsRecorded o user dto fee ws) (debit_request o user dto fee score)
    unfolding debit_request
    debit_lem score caps =
        Returns-bind _ _ (account-Lists (some user.id) user_available dto.asset) (λ available.
          Returns-bind _ _ (account-Lists none platform_pending_sweep dto.asset) (λ pending_sweep.
            Returns-bind new_id _ id-Lists (λ id. Returns-bind _ _ (posting-Lists _) (λ journal.
              Returns-if journal.replayed _ _ (replay_lem fresh)
                (record_lem score id journal.journal_id caps)))))

    capped_lem :
        (used : ℕ)
        → used ≡ daily_withdrawn_amount user.id o.start_of_day ws
        → Returns Lists (IsRecorded o user dto fee ws) (capped_request o user dto fee used)
    unfolding capped_request
    capped_lem used is = Returns-guard _ (withdrawal_cap_exceeded daily) _ (λ within.
        Returns-bind (gets (λ db. prior_count user.id db.withdrawals)) _ (gets-Lists _) (λ prior.
          Returns-bind (gets (λ db. recent_count user.id (o.now - 24 * 3_600_000) db.withdrawals)) _
            (gets-Lists _)
            (λ recent.
              debit_lem
                (score_withdrawal_risk (record {
                  amount = dto.amount;
                  tier_daily_limit = o.tier_daily_withdrawal user.kyc_tier;
                  prior_withdrawal_count = prior;
                  attempts_last_24h = recent;
                })).score
                (rw is at (
                  under (min_limit o.daily_max (o.tier_daily_withdrawal user.kyc_tier))
                    (used + dto.amount) within)))))

    pub request_tx_lem : Returns Lists (IsRecorded o user dto fee ws) (request_tx o user dto fee)
    unfolding request_tx
    request_tx_lem =
        Returns-bind_where
          (gets (λ db. daily_withdrawn_amount user.id o.start_of_day db.withdrawals))
          (capped_request o user dto fee)
          (λ used. used ≡ daily_withdrawn_amount user.id o.start_of_day ws) (λ db h. h)
          (λ s s' a h e.
            ap (λ p. p.0) (ok_inj e) ∙ ap (daily_withdrawn_amount user.id o.start_of_day) h)
          capped_lem
