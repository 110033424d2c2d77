-- ===== src/Paper.antt =====
-- src/algo_manus/domain/paper.py: paper orders, their events, the lifecycle, and the assumptions
-- of the local fill simulator.
pub mod Lifecycle
use algo_manus.Prelude.{
  ℕ, String, Bool, true, false, Option, none, some, List, [], ◌∷◌, ◌==◌, is_blank, ◌||◌,
  if◌then◌else◌,
}
use algo_manus.Prelude.Result.{Result, ok, value_error, raise_if, ◌>>=◌, ◌>>◌}
use algo_manus.Prelude.Int.{ℤ, pos, ltb_ℤ, ◌-ℤ◌}
use algo_manus.Prelude.Floats.{Floats, float, zero_f, ◌⊕◌, ◌⊖◌, ◌⊗◌, ◌⊘◌, ◌≺◌, ◌≼◌}
use algo_manus.Prelude.Time.{Datetime}
use algo_manus.Prelude.Json.{Json, Dict, text, boolean, integer, number, empty, put}
use algo_manus.Vocabulary.{ReconciliationDisposition}
use algo_manus.Risk.Intent.{OrderSide, OrderIntent, RiskDecision, is_buy}
use algo_manus.Risk.Engine.{RiskEngineDecision}

-- `SUBMITTED` is an alias of `ACCEPTED` in the source.
pub data PaperOrderStatus : Type 0 where
  pending_risk risk_approved rejected accepted working partially_filled filled cancelled
        reconciled :
      PaperOrderStatus

abbrev pub ordinal : PaperOrderStatus → ℕ
ordinal PaperOrderStatus.pending_risk = 0
ordinal PaperOrderStatus.risk_approved = 1
ordinal PaperOrderStatus.rejected = 2
ordinal PaperOrderStatus.accepted = 3
ordinal PaperOrderStatus.working = 4
ordinal PaperOrderStatus.partially_filled = 5
ordinal PaperOrderStatus.filled = 6
ordinal PaperOrderStatus.cancelled = 7
ordinal PaperOrderStatus.reconciled = 8

-- `a is b`
abbrev pub same_status : PaperOrderStatus → PaperOrderStatus → Bool
same_status a b = ordinal a == ordinal b

-- `PaperOrderStatus.value`
unfoldable pub status_value : PaperOrderStatus → String
status_value PaperOrderStatus.pending_risk = "PENDING_RISK"
status_value PaperOrderStatus.risk_approved = "RISK_APPROVED"
status_value PaperOrderStatus.rejected = "REJECTED"
status_value PaperOrderStatus.accepted = "ACCEPTED"
status_value PaperOrderStatus.working = "WORKING"
status_value PaperOrderStatus.partially_filled = "PARTIALLY_FILLED"
status_value PaperOrderStatus.filled = "FILLED"
status_value PaperOrderStatus.cancelled = "CANCELLED"
status_value PaperOrderStatus.reconciled = "RECONCILED"

pub data PaperEventType : Type 0 where
  order_proposed risk_decision order_accepted order_submitted order_working order_unfilled
        order_partially_filled order_rejected order_filled order_cancelled reconciliation_recorded :
      PaperEventType

-- `PaperEventType.value`
unfoldable pub event_type_value : PaperEventType → String
event_type_value PaperEventType.order_proposed = "ORDER_PROPOSED"
event_type_value PaperEventType.risk_decision = "RISK_DECISION"
event_type_value PaperEventType.order_accepted = "ORDER_ACCEPTED"
event_type_value PaperEventType.order_submitted = "ORDER_SUBMITTED"
event_type_value PaperEventType.order_working = "ORDER_WORKING"
event_type_value PaperEventType.order_unfilled = "ORDER_UNFILLED"
event_type_value PaperEventType.order_partially_filled = "ORDER_PARTIALLY_FILLED"
event_type_value PaperEventType.order_rejected = "ORDER_REJECTED"
event_type_value PaperEventType.order_filled = "ORDER_FILLED"
event_type_value PaperEventType.order_cancelled = "ORDER_CANCELLED"
event_type_value PaperEventType.reconciliation_recorded = "RECONCILIATION_RECORDED"

pub data LocalOrderType : Type 0 where
  limit market : LocalOrderType

unfoldable pub order_type_value : LocalOrderType → String
order_type_value LocalOrderType.limit = "LIMIT"
order_type_value LocalOrderType.market = "MARKET"

abbrev pub is_limit : LocalOrderType → Bool
is_limit LocalOrderType.limit = true
is_limit LocalOrderType.market = false

pub data PaperFillSimulationOutcome : Type 0 where
  no_fill partial_fill filled : PaperFillSimulationOutcome

unfoldable pub outcome_value : PaperFillSimulationOutcome → String
outcome_value PaperFillSimulationOutcome.no_fill = "NO_FILL"
outcome_value PaperFillSimulationOutcome.partial_fill = "PARTIAL_FILL"
outcome_value PaperFillSimulationOutcome.filled = "FILLED"

pub record LocalLimitFillAssumptions (F : Type 0) : Type 0 where
  pub order_type : LocalOrderType
  pub limit_price : F
  pub observed_price : F
  pub available_quantity : ℤ
  pub adverse_slippage_bps : F
  pub session_open : Bool
  pub model_version : String

module _ {F : Type 0} ⦃fl : Floats F⦄ where
  -- The constructor of `LocalLimitFillAssumptions` with its `__post_init__`.
  unfoldable pub limit_fill_assumptions :
      LocalLimitFillAssumptions F → Result (LocalLimitFillAssumptions F)
  limit_fill_assumptions a = do
    raise_if ((a.limit_price ≼ zero_f) || (a.observed_price ≼ zero_f))
        (value_error "local limit and observed simulation prices must be positive")
    raise_if (ltb_ℤ a.available_quantity (pos 0))
        (value_error "local simulated available quantity cannot be negative")
    raise_if (a.adverse_slippage_bps ≺ zero_f)
        (value_error "local simulated adverse slippage cannot be negative")
    raise_if (is_blank a.model_version) (value_error "local simulator model version is required")
    ok a

  unfoldable pub effective_fill_price : LocalLimitFillAssumptions F → OrderSide → F
  effective_fill_price a side =
      let multiplier = a.adverse_slippage_bps ⊘ float (pos 10_000) in
      fl.round
        (a.observed_price
          ⊗ (if is_buy side then float (pos 1) ⊕ multiplier else float (pos 1) ⊖ multiplier))
        10

  unfoldable pub is_limit_eligible : LocalLimitFillAssumptions F → OrderSide → Bool
  is_limit_eligible a side =
      let price = effective_fill_price a side in
      if is_buy side then price ≼ a.limit_price else a.limit_price ≼ price

module _ {F : Type 0} where
  unfoldable pub event_payload :
      LocalLimitFillAssumptions F → PaperFillSimulationOutcome → String → Dict F
  unfolding order_type_value outcome_value
  event_payload a outcome reason_code = put "model_version" (text a.model_version) (
      put "order_type" (text (order_type_value a.order_type)) (
        put "limit_price" (number a.limit_price) (
          put "observed_price" (number a.observed_price) (
            put "available_quantity" (integer a.available_quantity) (
              put "adverse_slippage_bps" (number a.adverse_slippage_bps) (
                put "session_open" (boolean a.session_open) (
                  put "outcome" (text (outcome_value outcome)) (
                    put "reason_code" (text reason_code)
                      (put "local_only" (boolean true) empty)))))))))

pub record PaperPromotionEvidence : Type 0 where
  pub batch_id : String
  pub manifest_id : String
  pub dataset_id : String
  pub validation_policy_version : String

-- `PaperOrderLifecycle._TRANSITIONS`
unfoldable pub transitions : PaperOrderStatus → PaperEventType → Option PaperOrderStatus
transitions PaperOrderStatus.pending_risk PaperEventType.order_proposed =
    some PaperOrderStatus.pending_risk
transitions PaperOrderStatus.pending_risk PaperEventType.order_rejected =
    some PaperOrderStatus.rejected
transitions PaperOrderStatus.risk_approved PaperEventType.order_accepted =
    some PaperOrderStatus.accepted
transitions PaperOrderStatus.risk_approved PaperEventType.order_submitted =
    some PaperOrderStatus.accepted
transitions PaperOrderStatus.accepted PaperEventType.order_working = some PaperOrderStatus.working
transitions PaperOrderStatus.accepted PaperEventType.order_unfilled = some PaperOrderStatus.accepted
transitions PaperOrderStatus.accepted PaperEventType.order_partially_filled =
    some PaperOrderStatus.partially_filled
transitions PaperOrderStatus.accepted PaperEventType.order_filled = some PaperOrderStatus.filled
transitions PaperOrderStatus.accepted PaperEventType.order_cancelled =
    some PaperOrderStatus.cancelled
transitions PaperOrderStatus.working PaperEventType.order_partially_filled =
    some PaperOrderStatus.partially_filled
transitions PaperOrderStatus.working PaperEventType.order_unfilled = some PaperOrderStatus.working
transitions PaperOrderStatus.working PaperEventType.order_filled = some PaperOrderStatus.filled
transitions PaperOrderStatus.working PaperEventType.order_cancelled =
    some PaperOrderStatus.cancelled
transitions PaperOrderStatus.partially_filled PaperEventType.order_partially_filled =
    some PaperOrderStatus.partially_filled
transitions PaperOrderStatus.partially_filled PaperEventType.order_unfilled =
    some PaperOrderStatus.partially_filled
transitions PaperOrderStatus.partially_filled PaperEventType.order_filled =
    some PaperOrderStatus.filled
transitions PaperOrderStatus.partially_filled PaperEventType.order_cancelled =
    some PaperOrderStatus.cancelled
transitions PaperOrderStatus.rejected PaperEventType.reconciliation_recorded =
    some PaperOrderStatus.reconciled
transitions PaperOrderStatus.filled PaperEventType.reconciliation_recorded =
    some PaperOrderStatus.reconciled
transitions PaperOrderStatus.cancelled PaperEventType.reconciliation_recorded =
    some PaperOrderStatus.reconciled
transitions _ _ = none

-- `PaperOrderLifecycle.apply`; a `None` result is evidence out of sequence.
unfoldable pub apply : PaperOrderStatus → PaperEventType → Option Bool → Option PaperOrderStatus
unfolding transitions
apply current PaperEventType.risk_decision risk_allowed =
    if same_status current PaperOrderStatus.pending_risk
    then some (elim risk_allowed [
      | some true ↦ PaperOrderStatus.risk_approved
      | _ ↦ PaperOrderStatus.pending_risk
    ])
    else none
apply current event_type risk_allowed = transitions current event_type

pub record PaperOrder (F : Type 0) : Type 0 where
  pub intent : OrderIntent F
  pub status : PaperOrderStatus
  pub submitted_at : Datetime
  pub filled_at : Option Datetime
  pub fill_price : Option F
  pub filled_quantity : ℤ
  pub reconciliation_disposition : Option ReconciliationDisposition

-- The payload is a JSON text.
pub record PaperEvent (T : Type 0) : Type 0 where
  pub event_id : String
  pub event_type : PaperEventType
  pub occurred_at : Datetime
  pub order_id : String
  pub instrument_id : String
  pub payload : T

pub record PaperSubmission (F : Type 0) : Type 0 where
  pub order : PaperOrder F
  pub decision : RiskDecision
  pub central_decision : RiskEngineDecision

pub record PaperFillSimulation (F : Type 0) : Type 0 where
  pub order : PaperOrder F
  pub outcome : PaperFillSimulationOutcome
  pub reason_code : String
  pub assumptions : LocalLimitFillAssumptions F
