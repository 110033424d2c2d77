-- ===== src/Risk/Engine/Exposure.antt =====
-- The portfolio limits of the central risk engine against what each one bounds.
use algo_manus.Prelude.{true, false, ◌≡◌, ◌↔◌, Option, none, some, arith, ◌≢◌, is_blank}
use algo_manus.Prelude.Int.{pos}
use algo_manus.Prelude.Result.{ok}
use algo_manus.Prelude.Floats.{Floats, float, zero_f, ◌⊗◌, ◌⊘◌, ◌≺◌, ◌≼◌}
use algo_manus.Risk.Intent.{OrderIntent}
use algo_manus.Risk.Engine.{
  CentralRiskPolicy, PortfolioRiskSnapshot, RiskEngineDecision, RiskDecisionType, RiskDecisionCode,
  projected_gross_notional, projected_notional, decision, risk_engine_decision,
  evaluate_portfolio_limits, exceeds, loses, concentrates,
}

module _ {F : Type 0} ⦃fl : Floats F⦄ where
  -- Every configured portfolio limit holds of the portfolio as it would be after the order.
  pub record IsWithinExposure (intent : OrderIntent F) (policy : CentralRiskPolicy F)
      (snapshot : PortfolioRiskSnapshot F) : Type 0 where
    pub gross :
        (limit : F)
        → policy.max_gross_notional ≡ some limit
        → (limit ≺ projected_gross_notional snapshot intent) ≡ false
    pub instrument :
        (limit : F)
        → policy.max_notional_per_instrument ≡ some limit
        → (limit ≺ projected_notional snapshot intent) ≡ false
    pub loss :
        (limit : F)
        → policy.max_realized_loss ≡ some limit
        → (snapshot.realized_pnl ≼ fl.neg limit) ≡ false
    pub concentration :
        (limit : F)
        → policy.max_concentration_pct ≡ some limit
        → (zero_f ≺ projected_gross_notional snapshot intent) ≡ true
        → (limit ≺ (
            projected_notional snapshot intent
            ⊘ projected_gross_notional snapshot intent
            ⊗ float (pos 100)))
          ≡ false

  exceeds_iff :
      (value : F) (limit : Option F)
      → (exceeds value limit ≡ false) ↔ ((l : F) → limit ≡ some l → (l ≺ value) ≡ false)
  exceeds_iff value none = (λ _ l e. cc, λ _. ground arith)
  exceeds_iff value (some limit) = (λ h l e. ground arith, λ h. ground (arith, h limit))

  loses_iff :
      (pnl : F) (limit : Option F)
      → (loses pnl limit ≡ false) ↔ ((l : F) → limit ≡ some l → (pnl ≼ fl.neg l) ≡ false)
  loses_iff pnl none = (λ _ l e. cc, λ _. ground arith)
  loses_iff pnl (some limit) = (λ h l e. ground arith, λ h. ground (arith, h limit))

  concentrates_iff :
      (instrument gross : F) (limit : Option F)
      → (concentrates instrument gross limit ≡ false) ↔ (
          (l : F)
          → limit ≡ some l
          → (zero_f ≺ gross) ≡ true
          → (l ≺ (instrument ⊘ gross ⊗ float (pos 100))) ≡ false)
  concentrates_iff instrument gross none = (λ _ l e p. cc, λ _. ground arith)
  concentrates_iff instrument gross (some limit) =
      (λ h l e p. ground arith, λ h. ground (arith, h limit))

  module _ (intent : OrderIntent F) (policy : CentralRiskPolicy F)
      (snapshot : PortfolioRiskSnapshot F) where
    four_tests : (evaluate_portfolio_limits intent policy snapshot ≡ ok none) ↔ (
        (exceeds (projected_gross_notional snapshot intent) policy.max_gross_notional ≡ false)
        × (exceeds (projected_notional snapshot intent) policy.max_notional_per_instrument ≡ false)
        × (loses snapshot.realized_pnl policy.max_realized_loss ≡ false)
        × (concentrates
              (projected_notional snapshot intent)
              (projected_gross_notional snapshot intent)
              policy.max_concentration_pct
            ≡ false))
    unfolding evaluate_portfolio_limits decision risk_engine_decision
    four_tests = (λ h. ground arith, λ h. ground arith)

    -- The portfolio limits raise no decision exactly when each limit that the policy configures
    -- holds of the projected gross notional, the projected instrument notional, the realised
    -- result, and, where the projected gross notional is positive, the concentration.
    pub portfolio_limits_iff :
        (evaluate_portfolio_limits intent policy snapshot ≡ ok none)
        ↔ IsWithinExposure intent policy snapshot
    portfolio_limits_iff = (
      λ h.
          let (g, i, l, c) = four_tests.0 h in
          record {
            gross = (exceeds_iff _ _).0 g;
            instrument = (exceeds_iff _ _).0 i;
            loss = (loses_iff _ _).0 l;
            concentration = (concentrates_iff _ _ _).0 c;
          },
      λ w. four_tests.1 (
        (exceeds_iff _ _).1 w.gross,
        (exceeds_iff _ _).1 w.instrument,
        (loses_iff _ _).1 w.loss,
        (concentrates_iff _ _ _).1 w.concentration,
      ),
    )

    -- A decision of the portfolio limits is a rejection under the policy and for the order given.
    pub portfolio_limits_reject :
        {d : RiskEngineDecision}
        → evaluate_portfolio_limits intent policy snapshot ≡ ok (some d)
        → (d.decision_type ≡ RiskDecisionType.reject)
          × (d.code ≢ RiskDecisionCode.approved)
          × (d.policy_version ≡ policy.policy_version)
          × (d.order_id ≡ intent.order_id)
          × (is_blank d.policy_version ≡ false)
          × (is_blank d.order_id ≡ false)
    unfolding evaluate_portfolio_limits decision risk_engine_decision
    portfolio_limits_reject h =
        (ground arith, λ e. ground arith, ground arith, ground arith, ground arith, ground arith)
