-- ===== src/Risk.antt =====
-- The deterministic risk rules: backend/src/modules/risk/risk.rules.ts and
-- backend/src/modules/withdrawals/withdrawal-risk.ts.
pub mod Score
use quata_trade.Prelude.{
  ℕ, ◌+◌, ◌*◌, ◌/◌, Bool, true, false, Option, none, some, List, [], ◌∷◌, ltb, leb, ◌==◌, min,
  if◌then◌else◌,
}

pub data RiskKind : Type 0 where
  login trade_open withdrawal : RiskKind

pub record RiskInputs : Type 0 where
  pub kind : RiskKind
  pub events_this_hour : ℕ
  pub amount : Option ℕ
  pub tier_limit : Option ℕ
  pub account_age_ms : ℕ
  pub is_new_device : Bool

pub record RiskConfig : Type 0 where
  pub velocity_per_hour : RiskKind → ℕ
  pub velocity_points : ℕ
  pub near_limit_percent : ℕ
  pub near_limit_points : ℕ
  pub young_account_ms : ℕ
  pub young_account_points : ℕ
  pub new_device_points : ℕ
  pub escalate_at : ℕ
  pub freeze_at : ℕ

abbrev pub default_velocity : RiskKind → ℕ
default_velocity login = 10
default_velocity trade_open = 10
default_velocity withdrawal = 3

abbrev pub default_risk_config : RiskConfig
default_risk_config = record {
  velocity_per_hour = default_velocity;
  velocity_points = 30;
  near_limit_percent = 80;
  near_limit_points = 25;
  young_account_ms = 24 * 60 * 60 * 1000;
  young_account_points = 20;
  new_device_points = 15;
  escalate_at = 70;
  freeze_at = 90;
}

-- The keys of the flags object; the explaining texts are not modelled.
pub data Rule : Type 0 where
  velocity_exceeded near_tier_limit new_account new_device : Rule

pub record RiskScore : Type 0 where
  pub score : ℕ
  pub flags : List (Rule × ℕ)

-- The closure `trigger`, on the flags and the score so far; the newest flag stands first.
abbrev pub trigger : Bool → Rule → ℕ → ℕ × List (Rule × ℕ) → ℕ × List (Rule × ℕ)
trigger false rule points acc = acc
trigger true rule points (score, flags) = (score + points, (rule, points) ∷ flags)

abbrev pub near_limit : Option ℕ → Option ℕ → ℕ → Bool
near_limit (some amount) (some limit) percent = ltb (limit * percent) (amount * 100)
near_limit _ _ percent = false

unfoldable pub compute_score : RiskInputs → RiskConfig → RiskScore
compute_score inputs config =
    let velocity =
      trigger (ltb (config.velocity_per_hour inputs.kind) inputs.events_this_hour) velocity_exceeded
        config.velocity_points (0, []) in
    let limit =
      trigger (near_limit inputs.amount inputs.tier_limit config.near_limit_percent) near_tier_limit
        config.near_limit_points velocity in
    let age =
      trigger (ltb inputs.account_age_ms config.young_account_ms) new_account
        config.young_account_points limit in
    let device = trigger inputs.is_new_device new_device config.new_device_points age in
    record { score = min 100 device.0; flags = device.1 }

-- The inputs that `scoreLogin`, `scoreTradeOpen` and `scoreWithdrawal` of risk.service.ts gather.
unfoldable pub login_inputs : ℕ → ℕ → Bool → RiskInputs
login_inputs events age_ms is_new_device = record {
  kind = login;
  events_this_hour = events;
  amount = none;
  tier_limit = none;
  account_age_ms = age_ms;
  is_new_device = is_new_device;
}

unfoldable pub trade_open_inputs : ℕ → ℕ → ℕ → ℕ → RiskInputs
trade_open_inputs events amount max_trade age_ms = record {
  kind = trade_open;
  events_this_hour = events;
  amount = some amount;
  tier_limit = some max_trade;
  account_age_ms = age_ms;
  is_new_device = false;
}

unfoldable pub withdrawal_inputs : ℕ → ℕ → ℕ → ℕ → RiskInputs
withdrawal_inputs events amount daily_withdrawal age_ms = record {
  kind = withdrawal;
  events_this_hour = events;
  amount = some amount;
  tier_limit = some daily_withdrawal;
  account_age_ms = age_ms;
  is_new_device = false;
}

pub data RiskAction : Type 0 where
  no_action escalate freeze : RiskAction

unfoldable pub action_for_score : ℕ → RiskConfig → RiskAction
action_for_score score config =
    if leb config.freeze_at score
    then freeze
    else if leb config.escalate_at score
    then escalate
    else no_action

-- ---------------------------------------------------------------- withdrawal-risk.ts

abbrev pub risk_hold_score : ℕ
risk_hold_score = 70

pub record WithdrawalRiskInput : Type 0 where
  pub amount : ℕ
  pub tier_daily_limit : ℕ
  pub prior_withdrawal_count : ℕ
  pub attempts_last_24h : ℕ

pub record WithdrawalRiskResult : Type 0 where
  pub score : ℕ
  pub tier_ratio : Option ℕ
  pub first_withdrawal : Option ℕ
  pub velocity : Option ℕ

abbrev points_if_any : ℕ → Option ℕ
points_if_any n = if ltb 0 n then some n else none

unfoldable pub ratio_score : ℕ → ℕ → ℕ
ratio_score amount limit =
    let pct : ℕ = if ltb 0 limit then amount * 100 / limit else 100 in
    if leb 80 pct then 40 else if leb 50 pct then 25 else if leb 25 pct then 10 else 0

unfoldable pub score_withdrawal_risk : WithdrawalRiskInput → WithdrawalRiskResult
score_withdrawal_risk input =
    let ratio = ratio_score input.amount input.tier_daily_limit in
    let first : ℕ = if input.prior_withdrawal_count == 0 then 30 else 0 in
    let velocity = min input.attempts_last_24h 4 * 10 in
    record {
      score = min (ratio + first + velocity) 100;
      tier_ratio = points_if_any ratio;
      first_withdrawal = points_if_any first;
      velocity = points_if_any velocity;
    }
