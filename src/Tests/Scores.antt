-- ===== src/Tests/Scores.antt =====
-- The risk rules at concrete inputs.
use quata_trade.Prelude.{ℕ, ◌≤◌, ◌≡◌, ◌≢◌, refl, true, false, some, arith}
use quata_trade.Risk.{
  RiskInputs, trade_open, default_risk_config, compute_score, login_inputs, trade_open_inputs,
  withdrawal_inputs, action_for_score, no_action, freeze, WithdrawalRiskInput,
  score_withdrawal_risk,
}
use quata_trade.Risk.Score.{compute_score_mono, service_never_freezes, score_withdrawal_risk_mono}

abbrev calm : RiskInputs
calm = record {
  kind = trade_open;
  events_this_hour = 2;
  amount = some 100;
  tier_limit = some 1_000;
  account_age_ms = 900_000_000;
  is_new_device = false;
}

abbrev busy : RiskInputs
busy = record {
  kind = trade_open;
  events_this_hour = 12;
  amount = some 900;
  tier_limit = some 1_000;
  account_age_ms = 5_000;
  is_new_device = true;
}

compute_score_mono_example :
    (compute_score calm default_risk_config).score ≤ (compute_score busy default_risk_config).score
compute_score_mono_example = compute_score_mono busy calm (record {
  kind = refl;
  events = omega arith;
  limit = refl;
  amount = omega arith;
  age = omega arith;
  device = λ h. refl;
})

service_never_freezes_example :
    let act = λ (i : RiskInputs).
      action_for_score (compute_score i default_risk_config).score default_risk_config in
    (act (login_inputs 50 10 true) ≡ no_action)
    × (act (trade_open_inputs 50 900 1_000 10) ≢ freeze)
    × (act (withdrawal_inputs 50 900 1_000 10) ≢ freeze)
service_never_freezes_example = service_never_freezes 50 900 1_000 10 true

abbrev request_of : ℕ → ℕ → ℕ → WithdrawalRiskInput
request_of amount prior attempts = record {
  amount = amount;
  tier_daily_limit = 1_000;
  prior_withdrawal_count = prior;
  attempts_last_24h = attempts;
}

score_withdrawal_risk_mono_example :
    ((score_withdrawal_risk (request_of 100 4 1)).score
      ≤ (score_withdrawal_risk (request_of 900 0 5)).score)
    × ((score_withdrawal_risk (request_of 900 0 5)).score ≤ 100)
score_withdrawal_risk_mono_example =
    score_withdrawal_risk_mono (request_of 100 4 1) (request_of 900 0 5) refl (omega arith)
      (omega arith) (omega arith)
