-- ===== src/Examples/RiskExamples.antt =====
-- The theorems on the risk policies at concrete inputs.
use algo_manus.Prelude.{refl, false, true, none, ◌≡◌, ◌↔◌}
use algo_manus.Prelude.Text.{is_blank, is_space}
use algo_manus.Prelude.Int.{◌+ℤ◌, ◌*ℤ◌, neg_ℤ}
use algo_manus.Prelude.Result.{ok}
use algo_manus.Prelude.Floats.{whole}
use algo_manus.Risk.Intent
use algo_manus.Risk.Policy.{IsWithinLimits, evaluate_iff}
use algo_manus.Risk.Engine
use algo_manus.Risk.Intent.{notional, signed_notional}
use algo_manus.Risk.Engine.{
  RiskDecisionType, RiskDecisionCode, RiskEngineDecision, evaluate_portfolio_limits,
  evaluate_limits, has_portfolio_limits, decision, risk_engine_decision, projected_notional,
  projected_gross_notional, instrument_notional,
}
use algo_manus.Risk.Engine.Exposure.{IsWithinExposure, portfolio_limits_iff}
use algo_manus.Risk.Engine.Decision.{Decides, evaluate-Decides}
use algo_manus.Examples.{intent, portfolio, marks, limits, policy, exposure, complete_context}

evaluate_iff_example :
    ((Intent.evaluate ⦃fl = whole⦄ intent portfolio marks limits false).allowed ≡ true)
    ↔ IsWithinLimits ⦃fl = whole⦄ intent portfolio marks limits false
evaluate_iff_example = evaluate_iff ⦃fl = whole⦄ intent portfolio marks limits false

portfolio_limits_iff_example :
    (evaluate_portfolio_limits ⦃fl = whole⦄ intent policy exposure ≡ ok none)
    ↔ IsWithinExposure ⦃fl = whole⦄ intent policy exposure
portfolio_limits_iff_example = portfolio_limits_iff ⦃fl = whole⦄ intent policy exposure

abbrev approval : RiskEngineDecision
approval = record {
  decision_type = RiskDecisionType.allow;
  code = RiskDecisionCode.approved;
  reason = "intent satisfies the current central risk policy inputs";
  policy_version = policy.policy_version;
  order_id = intent.order_id;
}

evaluate-Decides_example : Decides ⦃fl = whole⦄ intent policy complete_context approval
unfolding Engine.evaluate evaluate_limits evaluate_portfolio_limits has_portfolio_limits decision
    risk_engine_decision notional signed_notional projected_notional projected_gross_notional
    instrument_notional whole ◌+ℤ◌ ◌*ℤ◌ neg_ℤ is_blank is_space
evaluate-Decides_example = evaluate-Decides ⦃fl = whole⦄ intent policy complete_context refl
