-- ===== src/PaperExecution/Operations.antt =====
-- The methods of `PaperExecutionService` that act on an order: `work`, `fill`,
-- `simulate_limit_fill`, `cancel` and `reconcile`.
use algo_manus.Prelude.{String, true, Option, none, some, not, ◌||◌, is_blank, if◌then◌else◌}
use algo_manus.Prelude.Int.{ℤ, pos, ◌+ℤ◌, ◌-ℤ◌, ltb_ℤ, leb_ℤ, eqb_ℤ, min_ℤ}
use algo_manus.Prelude.Result.{value_error}
use algo_manus.Prelude.Exec.{pure, raise_if, ◌>>=◌, ◌>>◌}
use algo_manus.Prelude.Floats.{Floats, zero_f, ◌≼◌}
use algo_manus.Prelude.Time.{Datetime}
use algo_manus.Prelude.Json.{Dict, Codec, boolean, integer, number, text, object, empty, put}
use algo_manus.Vocabulary.{ReconciliationDisposition, disposition_value}
use algo_manus.Risk.Intent.{OrderIntent}
use algo_manus.Paper.{
  PaperOrderStatus, PaperEventType, PaperOrder, LocalLimitFillAssumptions,
  PaperFillSimulationOutcome, PaperFillSimulation, same_status, is_limit, is_limit_eligible,
  effective_fill_price, event_payload,
}
use algo_manus.PaperExecution.Retained.{RetainedPaperState}
use algo_manus.PaperExecution.Events.{
  Action, is_terminal, lifecycle_terms, paper_order, with_retained, append_event, read_retained,
  require_actionable,
}

module _ {F : Type 0} where
  -- The payload of a fill event.
  abbrev pub fill_terms : OrderIntent F → F → ℤ → ℤ → Option (Dict F) → Dict F
  fill_terms intent fill_price quantity cumulative simulation_evidence =
      let terms = put "fill_price" (number fill_price) (
        put "quantity" (integer quantity) (
          put "cumulative_filled_quantity" (integer cumulative)
            (put "paper_only" (boolean true) (lifecycle_terms intent)))) in
      elim simulation_evidence [
        | none ↦ terms
        | some evidence ↦ put "simulation" (object evidence) terms
      ]

module _ {F T : Type 0} ⦃fl : Floats F⦄ (codec : Codec F T) where
  -- `work`; `at` is `now or datetime.now(timezone.utc)`, here and below.
  unfoldable pub work : PaperOrder F → Datetime → Action F T (PaperOrder F)
  work order at = do
    retained ← require_actionable codec order
    raise_if (not (same_status retained.status PaperOrderStatus.accepted))
        (value_error "only accepted paper orders can become working")
    append_event codec PaperEventType.order_working order.intent at (lifecycle_terms order.intent)
    pure (paper_order order.intent PaperOrderStatus.working order.submitted_at)

  -- `_record_fill`
  unfoldable pub record_fill :
      PaperOrder F → F → Option ℤ → Datetime → Option (Dict F) → Action F T (PaperOrder F)
  record_fill order fill_price quantity at simulation_evidence = do
    retained ← require_actionable codec order
    raise_if (fill_price ≼ zero_f) (value_error "paper fill price must be positive")
    let remaining = order.intent.quantity -ℤ retained.filled_quantity
    let fill_quantity : ℤ = elim quantity [ none ↦ remaining | some q ↦ q ]
    raise_if (leb_ℤ fill_quantity (pos 0) || ltb_ℤ remaining fill_quantity) (
        value_error
          "paper fill quantity must be positive and no greater than the remaining quantity")
    let cumulative = retained.filled_quantity +ℤ fill_quantity
    let complete = eqb_ℤ cumulative order.intent.quantity
    append_event codec
        (if complete then PaperEventType.order_filled else PaperEventType.order_partially_filled)
        order.intent at
        (fill_terms order.intent fill_price fill_quantity cumulative simulation_evidence)
    pure (record {
      intent = order.intent;
      status = if complete then PaperOrderStatus.filled else PaperOrderStatus.partially_filled;
      submitted_at = order.submitted_at;
      filled_at = some at;
      fill_price = some fill_price;
      filled_quantity = cumulative;
      reconciliation_disposition = none;
    })

  -- `fill`
  unfoldable pub fill : PaperOrder F → F → Option ℤ → Datetime → Action F T (PaperOrder F)
  unfolding record_fill
  fill order fill_price quantity at = record_fill order fill_price quantity at none

  -- `_record_no_fill`
  unfoldable pub record_no_fill :
      PaperOrder F
      → RetainedPaperState F
      → LocalLimitFillAssumptions F
      → String
      → Datetime
      → Action F T (PaperFillSimulation F)
  record_no_fill order retained assumptions reason_code at = do
    append_event codec PaperEventType.order_unfilled order.intent at (
        put "cumulative_filled_quantity" (integer retained.filled_quantity) (
          put "paper_only" (boolean true) (
            put "simulation"
              (object (event_payload assumptions PaperFillSimulationOutcome.no_fill reason_code))
              (lifecycle_terms order.intent))))
    pure (record {
      order = with_retained order retained retained.status;
      outcome = PaperFillSimulationOutcome.no_fill;
      reason_code = reason_code;
      assumptions = assumptions;
    })

  -- `simulate_limit_fill`
  unfoldable pub simulate_limit_fill :
      PaperOrder F → LocalLimitFillAssumptions F → Datetime → Action F T (PaperFillSimulation F)
  simulate_limit_fill order assumptions at = do
    retained ← require_actionable codec order
    raise_if (not (is_limit assumptions.order_type))
        (value_error "local simulator accepts limit orders only")
    let remaining = order.intent.quantity -ℤ retained.filled_quantity
    let fill_quantity = min_ℤ remaining assumptions.available_quantity
    let complete = eqb_ℤ fill_quantity remaining
    let outcome : PaperFillSimulationOutcome =
        if complete
        then PaperFillSimulationOutcome.filled
        else PaperFillSimulationOutcome.partial_fill
    let reason_code : String =
        if complete then "FILLED_WITH_EXPLICIT_LOCAL_ASSUMPTIONS" else "VOLUME_CAPPED"
    if not assumptions.session_open
        then record_no_fill order retained assumptions "SESSION_CLOSED" at
        else if not (is_limit_eligible assumptions order.intent.side)
        then record_no_fill order retained assumptions "LIMIT_NOT_ELIGIBLE" at
        else if eqb_ℤ assumptions.available_quantity (pos 0)
        then record_no_fill order retained assumptions "NO_AVAILABLE_SIMULATED_VOLUME" at
        else do
          filled ←
              record_fill order (effective_fill_price assumptions order.intent.side)
                (some fill_quantity) at (some (event_payload assumptions outcome reason_code))
          pure (record {
            order = filled;
            outcome = outcome;
            reason_code = reason_code;
            assumptions = assumptions;
          })

  -- `cancel`
  unfoldable pub cancel : PaperOrder F → String → Datetime → Action F T (PaperOrder F)
  cancel order reason at = do
    retained ← require_actionable codec order
    raise_if (is_blank reason) (value_error "local cancellation reason is required")
    append_event codec PaperEventType.order_cancelled order.intent at (
        put "reason" (text reason) (
          put "cumulative_filled_quantity" (integer retained.filled_quantity)
            (put "paper_only" (boolean true) (lifecycle_terms order.intent))))
    pure (with_retained order retained PaperOrderStatus.cancelled)

  -- `reconcile`
  unfoldable pub reconcile :
      PaperOrder F → ReconciliationDisposition → String → Datetime → Action F T (PaperOrder F)
  reconcile order disposition reason at = do
    retained ← read_retained codec order
    raise_if (not (is_terminal order.status) || not (same_status retained.status order.status))
        (value_error "only terminal paper orders can be reconciled")
    raise_if (is_blank reason) (value_error "local reconciliation reason is required")
    append_event codec PaperEventType.reconciliation_recorded order.intent at (
        put "paper_only" (boolean true) (
          put "disposition" (text (disposition_value disposition)) (
            put "reason" (text reason)
              (put "cumulative_filled_quantity" (integer retained.filled_quantity) empty))))
    pure (record (with_retained order retained PaperOrderStatus.reconciled) {
      reconciliation_disposition = some disposition;
    })
