-- ===== src/Risk/Engine.antt =====
-- src/algo_manus/domain/risk_engine.py: the central risk engine.
pub mod Decision
pub mod Exposure
use algo_manus.Prelude.{
  ℕ, String, Bool, true, false, List, [], ◌∷◌, map, any, not, ◌&&◌, ◌||◌, ◌≡◌, is_empty, is_blank,
  str_eq, contains, Option, none, some, is_some, is_none, ◌+++◌, if◌then◌else◌,
}
use algo_manus.Prelude.Result.{Result, ok, value_error, raise_if, ◌>>=◌, ◌>>◌}
use algo_manus.Prelude.Int.{ℤ, pos, ltb_ℤ, leb_ℤ}
use algo_manus.Prelude.Floats.{Floats, float, zero_f, max_f, ◌⊕◌, ◌⊗◌, ◌⊘◌, ◌≺◌, ◌≼◌}
use algo_manus.Vocabulary.{
  InstrumentStatus, instrument_status_value, is_active, DataValidationStatus,
  validation_status_value, is_accepted, DatasetValidationOutcome,
}
use algo_manus.Risk.Intent.{OrderIntent, notional, signed_notional}

pub data RiskDecisionType : Type 0 where
  allow reject defer : RiskDecisionType

pub data RiskDecisionCode : Type 0 where
  approved kill_switch_active duplicate_intent quantity_limit notional_limit open_position_limit
        instrument_context_missing instrument_not_active data_validation_missing data_not_accepted
        portfolio_risk_context_missing gross_exposure_limit instrument_exposure_limit
        realized_loss_limit concentration_limit :
      RiskDecisionCode

-- `RiskDecisionType.value`
unfoldable pub decision_type_value : RiskDecisionType → String
decision_type_value RiskDecisionType.allow = "ALLOW"
decision_type_value RiskDecisionType.reject = "REJECT"
decision_type_value RiskDecisionType.defer = "DEFER"

-- `RiskDecisionCode.value`
unfoldable pub decision_code_value : RiskDecisionCode → String
decision_code_value RiskDecisionCode.approved = "APPROVED"
decision_code_value RiskDecisionCode.kill_switch_active = "KILL_SWITCH_ACTIVE"
decision_code_value RiskDecisionCode.duplicate_intent = "DUPLICATE_INTENT"
decision_code_value RiskDecisionCode.quantity_limit = "QUANTITY_LIMIT"
decision_code_value RiskDecisionCode.notional_limit = "NOTIONAL_LIMIT"
decision_code_value RiskDecisionCode.open_position_limit = "OPEN_POSITION_LIMIT"
decision_code_value RiskDecisionCode.instrument_context_missing = "INSTRUMENT_CONTEXT_MISSING"
decision_code_value RiskDecisionCode.instrument_not_active = "INSTRUMENT_NOT_ACTIVE"
decision_code_value RiskDecisionCode.data_validation_missing = "DATA_VALIDATION_MISSING"
decision_code_value RiskDecisionCode.data_not_accepted = "DATA_NOT_ACCEPTED"
decision_code_value RiskDecisionCode.portfolio_risk_context_missing =
    "PORTFOLIO_RISK_CONTEXT_MISSING"
decision_code_value RiskDecisionCode.gross_exposure_limit = "GROSS_EXPOSURE_LIMIT"
decision_code_value RiskDecisionCode.instrument_exposure_limit = "INSTRUMENT_EXPOSURE_LIMIT"
decision_code_value RiskDecisionCode.realized_loss_limit = "REALIZED_LOSS_LIMIT"
decision_code_value RiskDecisionCode.concentration_limit = "CONCENTRATION_LIMIT"

pub record CentralRiskPolicy (F : Type 0) : Type 0 where
  pub policy_version : String
  pub max_quantity_per_order : ℤ
  pub max_notional_per_order : F
  pub max_open_positions : ℤ
  pub max_gross_notional : Option F
  pub max_notional_per_instrument : Option F
  pub max_realized_loss : Option F
  pub max_concentration_pct : Option F

pub record PortfolioRiskSnapshot (F : Type 0) : Type 0 where
  pub gross_notional : F
  pub realized_pnl : F
  pub instrument_notionals : List (String × F)

pub record RiskEvaluationContext (F : Type 0) : Type 0 where
  pub kill_switch_active : Bool
  pub seen_order_ids : List String
  pub open_position_count : ℤ
  pub instrument_status : Option InstrumentStatus
  pub validation_outcome : Option DatasetValidationOutcome
  pub portfolio_risk : Option (PortfolioRiskSnapshot F)

pub record RiskEngineDecision : Type 0 where
  pub decision_type : RiskDecisionType
  pub code : RiskDecisionCode
  pub reason : String
  pub policy_version : String
  pub order_id : String

-- `dict(pairs).get(key, default)`: the last pair of a key counts.
abbrev pub dict_get {ℓ} : {V : Type ℓ} → String → V → List (String × V) → V
dict_get k d [] = d
dict_get k d ((j, v) ∷ m) = dict_get k (if str_eq j k then v else d) m

module _ {F : Type 0} ⦃fl : Floats F⦄ where
  -- `limit is not None and limit <= 0`
  abbrev configured_nonpositive : Option F → Bool
  configured_nonpositive none = false
  configured_nonpositive (some limit) = limit ≼ zero_f

  abbrev concentration_invalid : Option F → Bool
  concentration_invalid none = false
  concentration_invalid (some pct) = not ((zero_f ≺ pct) && (pct ≼ float (pos 100)))

  -- The constructor of `CentralRiskPolicy` with its `__post_init__`.
  unfoldable pub central_risk_policy : CentralRiskPolicy F → Result (CentralRiskPolicy F)
  central_risk_policy p = do
    raise_if (is_blank p.policy_version) (value_error "risk policy version is required")
    raise_if
        (leb_ℤ p.max_quantity_per_order (pos 0)
          || (p.max_notional_per_order ≼ zero_f)
          || leb_ℤ p.max_open_positions (pos 0))
        (value_error "central risk policy limits must be positive")
    raise_if
        (configured_nonpositive p.max_gross_notional
          || configured_nonpositive p.max_notional_per_instrument
          || configured_nonpositive p.max_realized_loss)
        (value_error "configured central portfolio limits must be positive")
    raise_if (concentration_invalid p.max_concentration_pct)
        (value_error "configured maximum concentration must be in (0, 100]")
    ok p

  unfoldable pub has_portfolio_limits : CentralRiskPolicy F → Bool
  has_portfolio_limits p =
      is_some p.max_gross_notional
      || is_some p.max_notional_per_instrument
      || is_some p.max_realized_loss
      || is_some p.max_concentration_pct

  -- The constructor of `PortfolioRiskSnapshot` with its `__post_init__`.
  unfoldable pub portfolio_risk_snapshot :
      PortfolioRiskSnapshot F → Result (PortfolioRiskSnapshot F)
  portfolio_risk_snapshot s = do
    raise_if (s.gross_notional ≺ zero_f) (value_error "gross_notional cannot be negative")
    raise_if
        (any (λ (entry : String × F). is_empty entry.0 || (entry.1 ≺ zero_f))
          s.instrument_notionals)
        (value_error "instrument risk snapshot entries must be non-empty and non-negative")
    ok s

  unfoldable pub instrument_notional : PortfolioRiskSnapshot F → String → F
  instrument_notional s instrument_id = dict_get instrument_id zero_f s.instrument_notionals

  unfoldable pub projected_notional : PortfolioRiskSnapshot F → OrderIntent F → F
  unfolding instrument_notional
  projected_notional s intent =
      max_f zero_f (instrument_notional s intent.instrument_id ⊕ signed_notional intent)

  unfoldable pub projected_gross_notional : PortfolioRiskSnapshot F → OrderIntent F → F
  projected_gross_notional s intent = max_f zero_f (s.gross_notional ⊕ signed_notional intent)

  -- `limit is not None and value > limit`
  abbrev pub exceeds : F → Option F → Bool
  exceeds value none = false
  exceeds value (some limit) = limit ≺ value

  -- `limit is not None and realized_pnl <= -limit`
  abbrev pub loses : F → Option F → Bool
  loses realized_pnl none = false
  loses realized_pnl (some limit) = realized_pnl ≼ fl.neg limit

  -- The last test: `projected_gross > 0`, and the share of the instrument in it above the limit.
  abbrev pub concentrates : F → F → Option F → Bool
  concentrates projected_instrument projected_gross none = false
  concentrates projected_instrument projected_gross (some limit) =
      (zero_f ≺ projected_gross)
      && (limit ≺ (projected_instrument ⊘ projected_gross ⊗ float (pos 100)))

-- The constructor of `RiskEngineDecision` with its `__post_init__`.
unfoldable pub risk_engine_decision : RiskEngineDecision → Result RiskEngineDecision
risk_engine_decision d = do
  raise_if (is_blank d.reason || is_blank d.policy_version || is_blank d.order_id)
      (value_error "risk decision reason, policy version and order ID are required")
  ok d

module _ {F : Type 0} where
  -- `CentralRiskEngine._decision`
  unfoldable pub decision :
      RiskDecisionType
      → RiskDecisionCode
      → String
      → CentralRiskPolicy F
      → OrderIntent F
      → Result RiskEngineDecision
  decision type code reason policy intent = risk_engine_decision (record {
    decision_type = type;
    code = code;
    reason = reason;
    policy_version = policy.policy_version;
    order_id = intent.order_id;
  })

  -- `return self._decision(RiskDecisionType.REJECT, ...)` where `None` is the other result.
  abbrev pub rejection :
      RiskDecisionCode
      → String
      → CentralRiskPolicy F
      → OrderIntent F
      → Result (Option RiskEngineDecision)
  rejection code reason policy intent = do
    made ← decision RiskDecisionType.reject code reason policy intent
    ok (some made)

module _ {F : Type 0} ⦃fl : Floats F⦄ where
  -- `CentralRiskEngine._evaluate_portfolio_limits`; `ok none` when no limit is exceeded.
  unfoldable pub evaluate_portfolio_limits :
      OrderIntent F
      → CentralRiskPolicy F
      → PortfolioRiskSnapshot F
      → Result (Option RiskEngineDecision)
  evaluate_portfolio_limits intent policy snapshot =
      let projected_gross = projected_gross_notional snapshot intent in
      let projected_instrument = projected_notional snapshot intent in
      if exceeds projected_gross policy.max_gross_notional
      then rejection RiskDecisionCode.gross_exposure_limit
          "projected gross exposure exceeds the versioned central risk limit" policy intent
      else if exceeds projected_instrument policy.max_notional_per_instrument
      then rejection RiskDecisionCode.instrument_exposure_limit
          "projected instrument exposure exceeds the versioned central risk limit" policy intent
      else if loses snapshot.realized_pnl policy.max_realized_loss
      then rejection RiskDecisionCode.realized_loss_limit
          "realized local paper loss has reached the versioned central risk limit" policy intent
      else if concentrates projected_instrument projected_gross policy.max_concentration_pct
      then rejection RiskDecisionCode.concentration_limit
          "projected instrument concentration exceeds the versioned central risk limit" policy
          intent
      else ok none

  -- The tests of `CentralRiskEngine.evaluate` from the quantity limit on.
  unfoldable pub evaluate_limits :
      OrderIntent F → CentralRiskPolicy F → RiskEvaluationContext F → Result RiskEngineDecision
  evaluate_limits intent policy context =
      let approved =
        decision RiskDecisionType.allow RiskDecisionCode.approved
          "intent satisfies the current central risk policy inputs" policy intent in
      if ltb_ℤ policy.max_quantity_per_order intent.quantity
      then decision RiskDecisionType.reject RiskDecisionCode.quantity_limit
          "order quantity exceeds the versioned central risk limit" policy intent
      else if policy.max_notional_per_order ≺ notional intent
      then decision RiskDecisionType.reject RiskDecisionCode.notional_limit
          "order notional exceeds the versioned central risk limit" policy intent
      else if leb_ℤ policy.max_open_positions context.open_position_count
      then decision RiskDecisionType.reject RiskDecisionCode.open_position_limit
          "open position count has reached the versioned central risk limit" policy intent
      else elim context.portfolio_risk [
        | none ↦ approved
        | some snapshot ↦ do
          portfolio_decision ← evaluate_portfolio_limits intent policy snapshot
          elim portfolio_decision [ none ↦ approved | some made ↦ ok made ]
      ]

  -- `CentralRiskEngine.evaluate`
  unfoldable pub evaluate :
      OrderIntent F → CentralRiskPolicy F → RiskEvaluationContext F → Result RiskEngineDecision
  evaluate intent policy context =
      if context.kill_switch_active
      then decision RiskDecisionType.reject RiskDecisionCode.kill_switch_active
          "global paper safety switch is active" policy intent
      else if contains intent.order_id context.seen_order_ids
      then decision RiskDecisionType.reject RiskDecisionCode.duplicate_intent
          "order intent identity was already evaluated or submitted" policy intent
      else elim context.instrument_status [
        | none ↦
            decision RiskDecisionType.defer RiskDecisionCode.instrument_context_missing
              "instrument availability context is unavailable" policy intent
        | some status ↦
            if not (is_active status)
            then decision RiskDecisionType.defer RiskDecisionCode.instrument_not_active
                ("instrument status is " +++ instrument_status_value status) policy intent
            else elim context.validation_outcome [
              | none ↦
                  decision RiskDecisionType.defer RiskDecisionCode.data_validation_missing
                    "research dataset validation outcome is unavailable" policy intent
              | some outcome ↦
                  if not (is_accepted outcome.status)
                  then decision RiskDecisionType.defer RiskDecisionCode.data_not_accepted
                      ("research dataset validation status is "
                        +++ validation_status_value outcome.status)
                      policy intent
                  else if has_portfolio_limits policy && is_none context.portfolio_risk
                  then decision RiskDecisionType.defer
                      RiskDecisionCode.portfolio_risk_context_missing
                      "portfolio risk snapshot is required by the configured central policy" policy
                      intent
                  else evaluate_limits intent policy context
            ]
      ]
