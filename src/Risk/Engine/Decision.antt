-- ===== src/Risk/Engine/Decision.antt =====
-- What the central risk engine decides, and when.
use algo_manus.Prelude.{
  true, false, ◌≡◌, ◌↔◌, ◌⊎◌, inl, inr, none, some, is_none, contains, ◌&&◌, arith, Option-cases,
  Bool-cases, not, ◌≢◌, is_blank,
}
use algo_manus.Prelude.Int.{◌≤ℤ◌}
use algo_manus.Prelude.Result.{ok, Result-cases}
use algo_manus.Prelude.Floats.{Floats, ◌≺◌}
use algo_manus.Vocabulary.{
  InstrumentStatus, DataValidationStatus, DatasetValidationOutcome, is_active, is_accepted,
}
use algo_manus.Risk.Intent.{OrderIntent, notional}
use algo_manus.Risk.Engine.{
  CentralRiskPolicy, PortfolioRiskSnapshot, RiskEvaluationContext, RiskDecisionType,
  RiskDecisionCode, has_portfolio_limits, RiskEngineDecision, decision, risk_engine_decision,
  evaluate_portfolio_limits, evaluate_limits, evaluate,
}
use algo_manus.Risk.Engine.Exposure.{
  IsWithinExposure, portfolio_limits_iff, portfolio_limits_reject,
}

module _ {F : Type 0} ⦃fl : Floats F⦄ where
  -- The context that the engine needs is there and acceptable.
  pub record IsContextComplete (policy : CentralRiskPolicy F) (context : RiskEvaluationContext F)
      : Type 0 where
    pub instrument : context.instrument_status ≡ some InstrumentStatus.active
    pub validated :
        (o : DatasetValidationOutcome) × (context.validation_outcome ≡ some o)
        × (o.status ≡ DataValidationStatus.accepted)
    pub exposure : has_portfolio_limits policy ≡ true → context.portfolio_risk ≢ none

  -- The order keeps to the limits on its size and on the number of positions, and, where a
  -- portfolio snapshot is given, to the portfolio limits.
  pub record IsWithinPolicy (intent : OrderIntent F) (policy : CentralRiskPolicy F)
      (context : RiskEvaluationContext F) : Type 0 where
    pub quantity : intent.quantity ≤ℤ policy.max_quantity_per_order
    pub notional_bounded : (policy.max_notional_per_order ≺ notional intent) ≡ false
    pub positions : ¬ (policy.max_open_positions ≤ℤ context.open_position_count)
    pub exposure :
        (s : PortfolioRiskSnapshot F)
        → context.portfolio_risk ≡ some s
        → IsWithinExposure intent policy s

  -- The kill switch is off and the order ID is new.
  abbrev pub IsFresh : OrderIntent F → RiskEvaluationContext F → Type 0
  IsFresh intent context =
      (context.kill_switch_active ≡ false)
      × (contains intent.order_id context.seen_order_ids ≡ false)

  -- What a decision of the engine says of an order: that it is allowed, exactly when the order is
  -- fresh, the context complete and every limit of the policy held; that it is deferred, exactly
  -- when the order is fresh and the context is not complete; and which policy and order it is for.
  pub record Decides (intent : OrderIntent F) (policy : CentralRiskPolicy F)
      (context : RiskEvaluationContext F) (d : RiskEngineDecision) : Type 0 where
    pub allows : (d.decision_type ≡ RiskDecisionType.allow) ↔ (
        IsFresh intent context
        × IsContextComplete policy context
        × IsWithinPolicy intent policy context)
    pub defers :
        (d.decision_type ≡ RiskDecisionType.defer)
        ↔ (IsFresh intent context × (¬ IsContextComplete policy context))
    pub approves : (d.decision_type ≡ RiskDecisionType.allow) ↔ (d.code ≡ RiskDecisionCode.approved)
    pub version : d.policy_version ≡ policy.policy_version
    pub order : d.order_id ≡ intent.order_id
    pub named : (is_blank d.policy_version ≡ false) × (is_blank d.order_id ≡ false)

  module _ (intent : OrderIntent F) (policy : CentralRiskPolicy F)
      (context : RiskEvaluationContext F) {d : RiskEngineDecision} where
    -- Without an exceeded portfolio limit, an allowed order passes them all.
    allowed-exposure :
        (s : PortfolioRiskSnapshot F)
        → context.portfolio_risk ≡ some s
        → evaluate_limits intent policy context ≡ ok d
        → d.decision_type ≡ RiskDecisionType.allow
        → evaluate_portfolio_limits intent policy s ≡ ok none
    unfolding evaluate_limits decision risk_engine_decision
    allowed-exposure s e made h = elim (Result-cases (evaluate_portfolio_limits intent policy s)) [
      | inr (f, failed) ↦ ground arith
      | inl (none, within) ↦ within
      | inl (some over, found) ↦ ground (arith, portfolio_limits_reject intent policy s found)
    ]

    limits_allow_iff :
        evaluate_limits intent policy context ≡ ok d
        → (d.decision_type ≡ RiskDecisionType.allow) ↔ IsWithinPolicy intent policy context
    unfolding evaluate_limits decision risk_engine_decision
    limits_allow_iff made = (
      λ h. record {
        quantity = ground arith;
        notional_bounded = ground arith;
        positions = ground arith;
        exposure = λ s e. (portfolio_limits_iff intent policy s).0 (allowed-exposure s e made h);
      },
      λ w. elim (Option-cases context.portfolio_risk) [
        | inl e ↦ ground (arith, w.quantity, w.notional_bounded, w.positions)
        | inr (s, e) ↦ ground (
          arith,
          w.quantity,
          w.notional_bounded,
          w.positions,
          (portfolio_limits_iff intent policy s).1 (w.exposure s e),
        )
      ],
    )

    limits_stamped :
        evaluate_limits intent policy context ≡ ok d
        → (d.decision_type ≢ RiskDecisionType.defer)
          × ((d.decision_type ≡ RiskDecisionType.allow) ↔ (d.code ≡ RiskDecisionCode.approved))
          × (d.policy_version ≡ policy.policy_version)
          × (d.order_id ≡ intent.order_id)
          × (is_blank d.policy_version ≡ false)
          × (is_blank d.order_id ≡ false)
    unfolding evaluate_limits decision risk_engine_decision
    limits_stamped made =
        let rejects =
          λ (s : PortfolioRiskSnapshot F)
              (found : evaluate_portfolio_limits intent policy s ≡ ok (some d)).
            portfolio_limits_reject intent policy s found in
        (
          λ h. grind (arith, rejects),
          (λ h. grind (arith, rejects), λ h. grind (arith, rejects)),
          grind (arith, rejects),
          grind (arith, rejects),
          grind (arith, rejects),
          grind (arith, rejects),
        )

    allow_iff :
        evaluate intent policy context ≡ ok d
        → (d.decision_type ≡ RiskDecisionType.allow) ↔ (
            IsFresh intent context
            × IsContextComplete policy context
            × IsWithinPolicy intent policy context)
    unfolding evaluate decision risk_engine_decision
    allow_iff made = (
      λ h. (
        (ground arith, ground arith),
        record {
          instrument = ground arith;
          validated = ground arith;
          exposure = λ p e. ground arith;
        },
        (limits_allow_iff (ground arith)).0 h,
      ),
      λ (fresh, complete, within). (limits_allow_iff (ground arith)).1 within,
    )

    -- Either the context is complete, or the engine defers a fresh order.
    complete_or_deferred :
        evaluate intent policy context ≡ ok d
        → IsContextComplete policy context
          ⊎ (IsFresh intent context → d.decision_type ≡ RiskDecisionType.defer)
    unfolding evaluate decision risk_engine_decision
    complete_or_deferred made = elim (Option-cases context.instrument_status) [
      | inl e ↦ inr (λ fresh. ground arith)
      | inr (status, e) ↦ elim (Option-cases context.validation_outcome) [
        | inl v ↦ inr (λ fresh. ground arith)
        | inr (o, v) ↦
            elim (Bool-cases (
              is_active status
              && is_accepted o.status
              && not (has_portfolio_limits policy && is_none context.portfolio_risk))) [
                | inl fine ↦ inl (record {
                  instrument = ground arith;
                  validated = ground arith;
                  exposure = λ p q. ground arith;
                })
                | inr lacking ↦ inr (λ fresh. ground arith)
              ]
      ]
    ]

    -- A decision that `evaluate` returns allows the order exactly when the kill switch is off, the
    -- order ID is new, the instrument is active, its data accepted, a portfolio snapshot given
    -- where the policy needs one, and every limit of the policy holds; it defers exactly when the
    -- switch is off, the ID is new and that context is missing or not acceptable. It allows the
    -- order exactly when its code is APPROVED, and it names the policy version and the order ID,
    -- neither of which is blank.
    pub evaluate-Decides : evaluate intent policy context ≡ ok d → Decides intent policy context d
    unfolding evaluate decision risk_engine_decision
    evaluate-Decides made = record {
      allows = allow_iff made;
      defers = (
        λ h. (
          (ground arith, ground arith),
          λ complete. ground (arith, limits_stamped, complete.instrument, complete.exposure),
        ),
        λ (fresh, lacking). elim (complete_or_deferred made) [
          | inl complete ↦ absurd (lacking complete)
          | inr deferred ↦ deferred fresh
        ],
      );
      approves = (λ h. ground (arith, limits_stamped), λ h. ground (arith, limits_stamped));
      version = ground (arith, limits_stamped);
      order = ground (arith, limits_stamped);
      named = (ground (arith, limits_stamped), ground (arith, limits_stamped));
    }
