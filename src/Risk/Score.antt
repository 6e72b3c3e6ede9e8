-- ===== src/Risk/Score.antt =====
-- What the risk scores depend on, and what they lead to.
use quata_trade.Prelude.{
  ℕ, ◌+◌, ◌*◌, ◌/◌, ◌≤◌, ◌<◌, ◌≡◌, ◌≢◌, refl, min, Bool, true, false, Option, none, some, ltb,
  arith,
}
use native.Mathlib.Nat.{le-div_iff_mul-le}
use quata_trade.Risk.{
  RiskInputs, default_velocity, near_limit, login_inputs, trade_open_inputs, withdrawal_inputs,
  compute_score, default_risk_config, action_for_score, freeze, no_action, WithdrawalRiskInput,
  ratio_score, score_withdrawal_risk, risk_hold_score,
}

abbrev points : Bool → ℕ → ℕ
points false p = 0
points true p = p

-- The score is the capped sum of the points of the rules that fire.
score_sum :
    (i : RiskInputs)
    → (compute_score i default_risk_config).score
      ≡ min 100 (
          points (ltb (default_velocity i.kind) i.events_this_hour) 30
          + points (near_limit i.amount i.tier_limit 80) 25
          + points (ltb i.account_age_ms 86_400_000) 20
          + points i.is_new_device 15)
unfolding compute_score
score_sum i = ground arith

points-le : (a b : Bool) (p : ℕ) → (b ≡ true → a ≡ true) → points b p ≤ points a p
points-le a false p h = omega arith
points-le a true p h = rw (h refl) (omega arith)

abbrev pub AtMost : Option ℕ → Option ℕ → Type 0
AtMost none _ = Unit
AtMost (some y) none = ⊥
AtMost (some y) (some x) = y ≤ x

near_limit_mono :
    (a b limit : Option ℕ)
    → AtMost b a
    → near_limit b limit 80 ≡ true
    → near_limit a limit 80 ≡ true
near_limit_mono a none limit h e = cc
near_limit_mono none (some y) limit h e = absurd h
near_limit_mono (some x) (some y) none h e = cc
near_limit_mono (some x) (some y) (some l) h e = ground arith

-- One scoring is at least as risky as another of the same kind: as many events or more, at least
-- as high an amount against the same limit, at most as old an account, and a new device if the
-- other has one.
pub record IsRiskier (a b : RiskInputs) : Type 0 where
  pub kind : a.kind ≡ b.kind
  pub events : b.events_this_hour ≤ a.events_this_hour
  pub limit : a.tier_limit ≡ b.tier_limit
  pub amount : AtMost b.amount a.amount
  pub age : a.account_age_ms ≤ b.account_age_ms
  pub device : b.is_new_device ≡ true → a.is_new_device ≡ true

-- With the default configuration a scoring that is at least as risky as another has at least as
-- high a score.
pub compute_score_mono :
    (a b : RiskInputs)
    → IsRiskier a b
    → (compute_score b default_risk_config).score ≤ (compute_score a default_risk_config).score
compute_score_mono a b h =
    let v =
      points-le (ltb (default_velocity a.kind) a.events_this_hour)
        (ltb (default_velocity b.kind) b.events_this_hour) 30
        (rw h.kind λ e. let m = h.events in ground arith) in
    let l =
      points-le (near_limit a.amount a.tier_limit 80) (near_limit b.amount b.tier_limit 80) 25
        (rw h.limit (near_limit_mono a.amount b.amount b.tier_limit h.amount)) in
    let g =
      points-le (ltb a.account_age_ms 86_400_000) (ltb b.account_age_ms 86_400_000) 20
        (λ e. let m = h.age in ground arith) in
    let d = points-le _ _ 15 h.device in rw (score_sum a, score_sum b) (omega arith)

-- A freeze takes all four rules, with the default configuration.
freeze_needs_all :
    (i : RiskInputs)
    → action_for_score (compute_score i default_risk_config).score default_risk_config ≡ freeze
    → (near_limit i.amount i.tier_limit 80 ≡ true) × (i.is_new_device ≡ true)
unfolding compute_score action_for_score
freeze_needs_all i = ground arith

-- With the default configuration no scoring that the service makes freezes an account: a login has
-- no amount, and a trade or a withdrawal never counts as coming from a new device. A login is
-- never even escalated.
pub service_never_freezes :
    (events amount limit age_ms : ℕ) (is_new_device : Bool)
    → let act = λ (i : RiskInputs).
      action_for_score (compute_score i default_risk_config).score default_risk_config in
      (act (login_inputs events age_ms is_new_device) ≡ no_action)
      × (act (trade_open_inputs events amount limit age_ms) ≢ freeze)
      × (act (withdrawal_inputs events amount limit age_ms) ≢ freeze)
unfolding compute_score action_for_score login_inputs trade_open_inputs withdrawal_inputs
service_never_freezes events amount limit age_ms is_new_device = (
  ground arith,
  λ h. cc (freeze_needs_all (trade_open_inputs events amount limit age_ms) h).1,
  λ h. cc (freeze_needs_all (withdrawal_inputs events amount limit age_ms) h).1,
)

-- ---------------------------------------------------------------- withdrawal-risk.ts

ratio_score_mono : (a b limit : ℕ) → a ≤ b → ratio_score a limit ≤ ratio_score b limit
unfolding ratio_score
ratio_score_mono a b limit h =
    let m : a * 100 / limit ≤ b * 100 / limit = grind arith in ground arith

-- A higher amount, more attempts, or fewer earlier withdrawals never lower the score, and it is at
-- most 100.
pub score_withdrawal_risk_mono :
    (a b : WithdrawalRiskInput)
    → a.tier_daily_limit ≡ b.tier_daily_limit
    → a.amount ≤ b.amount
    → a.attempts_last_24h ≤ b.attempts_last_24h
    → b.prior_withdrawal_count ≤ a.prior_withdrawal_count
    → ((score_withdrawal_risk a).score ≤ (score_withdrawal_risk b).score)
      × ((score_withdrawal_risk b).score ≤ 100)
unfolding score_withdrawal_risk
score_withdrawal_risk_mono a b limit amounts attempts prior =
    let r : ratio_score a.amount a.tier_daily_limit ≤ ratio_score b.amount b.tier_daily_limit =
      rw limit (ratio_score_mono a.amount b.amount b.tier_daily_limit amounts) in
    (ground arith, omega arith)

ratio_score-le : (a limit : ℕ) → ratio_score a limit ≤ 40
unfolding ratio_score
ratio_score-le a limit = ground arith

ratio_score_high : (a limit : ℕ) → 0 < limit → limit * 80 ≤ a * 100 → ratio_score a limit ≡ 40
unfolding ratio_score
ratio_score_high a limit some_limit high =
    let m : 80 ≤ a * 100 / limit =
      (le-div_iff_mul-le {k = limit} {x = 80} {y = a * 100} some_limit).1 (omega arith) in
    ground arith

-- A first withdrawal of 80 percent of the daily limit or more is held for review. A user who has
-- withdrawn before and made fewer than three attempts in 24 hours is not held.
risk_hold_bounds :
    (i : WithdrawalRiskInput)
    → ((i.prior_withdrawal_count ≡ 0)
        → 0 < i.tier_daily_limit
        → i.tier_daily_limit * 80 ≤ i.amount * 100
        → risk_hold_score ≤ (score_withdrawal_risk i).score)
      × (0 < i.prior_withdrawal_count
          → i.attempts_last_24h < 3
          → (score_withdrawal_risk i).score < risk_hold_score)
unfolding score_withdrawal_risk
risk_hold_bounds i = (
  λ new some_limit high.
      let r : ratio_score i.amount i.tier_daily_limit ≡ 40 = ratio_score_high _ _ some_limit high in
      ground arith,
  λ known few. let r = ratio_score-le i.amount i.tier_daily_limit in ground arith,
)
