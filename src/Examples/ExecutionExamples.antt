-- ===== src/Examples/ExecutionExamples.antt =====
-- The theorems on the paper execution service at one order that is submitted, then filled, worked,
-- cancelled or simulated.

use algo_manus.Prelude.{false, true, none, some, [], ◌∷◌, ◌≡◌, ◌↔◌, ◌⊎◌, refl, arith}
use algo_manus.Prelude.Text.{is_blank, is_space}
use algo_manus.Prelude.Int.{ℤ, pos, ◌+ℤ◌, ◌-ℤ◌, ◌*ℤ◌, neg_ℤ, abs_ℤ}
use algo_manus.Prelude.Floats.{whole}
use algo_manus.Prelude.Time.{at}
use algo_manus.Prelude.Json.{Json, plain, plain-RoundTrips}
use algo_manus.Vocabulary.{InstrumentStatus, ReconciliationDisposition}
use algo_manus.Risk.Intent
use algo_manus.Risk.Intent.{
  notional, position_quantity, gross_notional, signed_notional, side_value,
}
use algo_manus.Risk.Engine
use algo_manus.Risk.Engine.{
  RiskEvaluationContext, has_portfolio_limits, instrument_notional, projected_notional,
  projected_gross_notional, evaluate_portfolio_limits, evaluate_limits, decision,
  risk_engine_decision, RiskEngineDecision, RiskDecisionType, RiskDecisionCode,
}
use algo_manus.Paper.{
  PaperOrderStatus, PaperEventType, PaperOrder, PaperSubmission, PaperFillSimulation,
  PaperFillSimulationOutcome, LocalLimitFillAssumptions, LocalOrderType, apply, event_type_value,
  effective_fill_price, is_limit_eligible,
}
use algo_manus.PaperLedger
use algo_manus.PaperLedger.{order_ids, events_for}
use algo_manus.PaperExecution.Retained
use algo_manus.PaperExecution.Retained.{
  RetainedPaperState, risk_part, fill_with, fill_part, evidence_part, replay_step, replay,
  retained_state,
}
use algo_manus.PaperExecution.Consistency.{IsConsistent, retained_state-IsConsistent}
use algo_manus.PaperExecution.Events.{
  ServiceState, paper_event, announce, append_event, read_retained, require_actionable, paper_order,
  with_retained, is_actionable, is_terminal, lifecycle_terms,
}
use algo_manus.PaperExecution.Operations.{
  work, record_fill, fill, record_no_fill, simulate_limit_fill, cancel, reconcile,
}
use algo_manus.PaperExecution.Submission.{
  ServiceConfig, Proposal, decide, record_submission, submit, submission, proposed_terms,
  accepted_terms, risk_terms,
}
use algo_manus.PaperExecution.Agreement.{Recorded}
use algo_manus.PaperExecution.Closing.{
  cancel_terms, reconcile_terms, work-Recorded, cancel-Recorded, reconcile-Recorded,
}
use algo_manus.PaperExecution.Filling.{FillRecorded, fill-FillRecorded}
use algo_manus.PaperExecution.Simulation.{
  IsFillable, Unfilled, Filled, simulation, simulate_limit_fill-IsFillable,
}
use algo_manus.PaperExecution.Admission.{Submitted, submit-IsAdmissible}
use algo_manus.Examples.{intent, portfolio, marks, limits, policy, exposure, accepted_data}

abbrev pub State : Type 0
State = ServiceState ℤ (Json ℤ)

abbrev config : ServiceConfig ℤ
config = record { central_policy = policy; require_promotion_evidence = false }

abbrev proposal : Proposal ℤ
proposal = record {
  intent = intent;
  portfolio = portfolio;
  marks = marks;
  limits = limits;
  kill_switch_active = false;
  instrument_status = some InstrumentStatus.active;
  validation_outcome = some accepted_data;
  portfolio_risk = some exposure;
  promotion_evidence = none;
  control_snapshot = none;
}

abbrev nothing_yet : State
nothing_yet = record { ledger = []; event_bus = none }

abbrev submitted : State
submitted = (submit ⦃fl = whole⦄ plain config proposal (at 1) nothing_yet).1

abbrev central_approval : RiskEngineDecision
central_approval = record {
  decision_type = RiskDecisionType.allow;
  code = RiskDecisionCode.approved;
  reason = "intent satisfies the current central risk policy inputs";
  policy_version = policy.policy_version;
  order_id = intent.order_id;
}

abbrev submitted_as : PaperSubmission ℤ
submitted_as =
    submission proposal central_approval
      (Intent.evaluate ⦃fl = whole⦄ intent portfolio marks limits false) PaperOrderStatus.accepted
      (at 1)

submit-IsAdmissible_example :
    Submitted ⦃fl = whole⦄ plain config proposal (at 1) nothing_yet submitted_as submitted
unfolding submit decide record_submission append_event announce paper_event Engine.evaluate
    Intent.evaluate evaluate_limits evaluate_portfolio_limits has_portfolio_limits decision
    risk_engine_decision notional position_quantity gross_notional signed_notional
    projected_notional projected_gross_notional instrument_notional whole ◌+ℤ◌ ◌*ℤ◌ ◌-ℤ◌ neg_ℤ abs_ℤ
    is_blank is_space PaperLedger.append order_ids event_type_value
submit-IsAdmissible_example =
    submit-IsAdmissible ⦃fl = whole⦄ plain config proposal (at 1) plain-RoundTrips nothing_yet
      {made = submitted_as} {s' = submitted} refl

-- The ledger after the submission, and the order that it returned.
abbrev pub placed : State
placed = record {
  ledger =
      paper_event ⦃fl = whole⦄ plain PaperEventType.order_proposed intent (at 1)
        (proposed_terms ⦃fl = whole⦄ plain intent)
      ∷ paper_event ⦃fl = whole⦄ plain PaperEventType.risk_decision intent (at 1) (
          risk_terms ⦃fl = whole⦄ plain proposal submitted_as.central_decision
            submitted_as.decision)
      ∷ paper_event ⦃fl = whole⦄ plain PaperEventType.order_accepted intent (at 1)
          (accepted_terms ⦃fl = whole⦄ plain intent)
      ∷ [];
  event_bus = none;
}

abbrev pub order : PaperOrder ℤ
order = paper_order intent PaperOrderStatus.accepted (at 1)

abbrev pub accepted_state : RetainedPaperState ℤ
accepted_state = record {
  status = PaperOrderStatus.accepted;
  filled_quantity = pos 0;
  filled_at = none;
  fill_price = none;
  reconciliation_disposition = none;
  risk_seen = true;
}

retained_state-IsConsistent_example : IsConsistent (pos 10) accepted_state
unfolding retained_state replay replay_step risk_part evidence_part Retained.event_payload apply
    events_for paper_event event_type_value Intent.evaluate whole position_quantity signed_notional
    gross_notional
retained_state-IsConsistent_example =
    retained_state-IsConsistent ⦃fl = whole⦄ (pos 10) plain (events_for placed.ledger "o-1")
      accepted_state (omega arith) refl

abbrev worked : State
worked = (work ⦃fl = whole⦄ plain order (at 2) placed).1

abbrev working : PaperOrder ℤ
working = paper_order intent PaperOrderStatus.working (at 1)

work-Recorded_example :
    (order.status ≡ PaperOrderStatus.accepted)
    × (working.status ≡ PaperOrderStatus.working)
    × Recorded ⦃fl = whole⦄ plain PaperEventType.order_working order
        (at 2)
        (lifecycle_terms intent)
        placed
        working
        worked
unfolding work require_actionable read_retained append_event announce paper_event PaperLedger.append
    retained_state replay replay_step risk_part evidence_part Retained.event_payload apply
    events_for event_type_value Intent.evaluate whole position_quantity signed_notional
    gross_notional
work-Recorded_example =
    work-Recorded ⦃fl = whole⦄ plain plain-RoundTrips order (omega arith) (at 2) placed
      {o' = working} {s' = worked} refl

abbrev partly : State
partly = (fill ⦃fl = whole⦄ plain order (pos 5) (some (pos 4)) (at 2) placed).1

abbrev four_filled : PaperOrder ℤ
four_filled = record {
  intent = intent;
  status = PaperOrderStatus.partially_filled;
  submitted_at = at 1;
  filled_at = some (at 2);
  fill_price = some (pos 5);
  filled_quantity = pos 4;
  reconciliation_disposition = none;
}

fill-FillRecorded_example :
    FillRecorded ⦃fl = whole⦄ plain plain-RoundTrips order
      (omega arith)
      (pos 5)
      (some (pos 4))
      (at 2)
      none
      placed
      four_filled
      partly
    × ((four_filled.status ≡ PaperOrderStatus.filled) ↔ (four_filled.filled_quantity ≡ pos 10))
unfolding fill record_fill require_actionable read_retained append_event announce paper_event
    PaperLedger.append retained_state replay replay_step risk_part evidence_part
    Retained.event_payload apply events_for event_type_value whole ◌+ℤ◌ ◌-ℤ◌ Intent.evaluate
    position_quantity signed_notional gross_notional
fill-FillRecorded_example =
    fill-FillRecorded ⦃fl = whole⦄ plain plain-RoundTrips order (omega arith) (pos 5) (some (pos 4))
      (at 2) placed {o' = four_filled} {s' = partly} refl

abbrev pub stopped : State
stopped = (cancel ⦃fl = whole⦄ plain order "stop" (at 2) placed).1

abbrev pub cancelled : PaperOrder ℤ
cancelled = paper_order intent PaperOrderStatus.cancelled (at 1)

cancel-Recorded_example :
    (r : RetainedPaperState ℤ) × (is_actionable order.status ≡ true)
    × (cancelled ≡ with_retained order r PaperOrderStatus.cancelled)
    × Recorded ⦃fl = whole⦄ plain PaperEventType.order_cancelled order
        (at 2)
        (cancel_terms ⦃fl = whole⦄ plain intent r "stop")
        placed
        cancelled
        stopped
unfolding cancel require_actionable read_retained append_event announce paper_event
    PaperLedger.append retained_state replay replay_step risk_part evidence_part
    Retained.event_payload apply events_for event_type_value is_blank is_space Intent.evaluate whole
    position_quantity signed_notional gross_notional
cancel-Recorded_example =
    cancel-Recorded ⦃fl = whole⦄ plain plain-RoundTrips order (omega arith) "stop" (at 2) placed
      {o' = cancelled} {s' = stopped} refl

abbrev closed : State
closed =
    (reconcile ⦃fl = whole⦄ plain cancelled ReconciliationDisposition.matched "seen" (at 3)
      stopped).1

abbrev settled : PaperOrder ℤ
settled = record (paper_order intent PaperOrderStatus.reconciled (at 1)) {
  reconciliation_disposition = some ReconciliationDisposition.matched;
}

reconcile-Recorded_example :
    (r : RetainedPaperState ℤ) × (is_terminal cancelled.status ≡ true)
    × (settled ≡ record (with_retained cancelled r PaperOrderStatus.reconciled) {
      reconciliation_disposition = some ReconciliationDisposition.matched;
    })
    × Recorded ⦃fl = whole⦄ plain PaperEventType.reconciliation_recorded cancelled
        (at 3)
        (reconcile_terms ⦃fl = whole⦄ plain r ReconciliationDisposition.matched "seen")
        stopped
        settled
        closed
unfolding cancel reconcile require_actionable read_retained append_event announce paper_event
    PaperLedger.append retained_state replay replay_step risk_part evidence_part
    Retained.event_payload apply events_for event_type_value is_blank is_space Intent.evaluate whole
    position_quantity signed_notional gross_notional
reconcile-Recorded_example =
    reconcile-Recorded ⦃fl = whole⦄ plain plain-RoundTrips cancelled (omega arith)
      ReconciliationDisposition.matched "seen" (at 3) stopped {o' = settled} {s' = closed} refl

-- Six units are on offer at four, under a limit of five.
abbrev six_at_four : LocalLimitFillAssumptions ℤ
six_at_four = record {
  order_type = LocalOrderType.limit;
  limit_price = pos 5;
  observed_price = pos 4;
  available_quantity = pos 6;
  adverse_slippage_bps = pos 0;
  session_open = true;
  model_version = "m-1";
}

abbrev simulated_partly : State
simulated_partly = (simulate_limit_fill ⦃fl = whole⦄ plain order six_at_four (at 2) placed).1

abbrev six_filled : PaperFillSimulation ℤ
six_filled =
    simulation
      (record {
        intent = intent;
        status = PaperOrderStatus.partially_filled;
        submitted_at = at 1;
        filled_at = some (at 2);
        fill_price = some (pos 4);
        filled_quantity = pos 6;
        reconciliation_disposition = none;
      })
      PaperFillSimulationOutcome.partial_fill "VOLUME_CAPPED" six_at_four

simulate_limit_fill-IsFillable_example :
    ((¬ IsFillable ⦃fl = whole⦄ plain order six_at_four (at 2))
      × Unfilled ⦃fl = whole⦄ plain order six_at_four
          (at 2)
          plain-RoundTrips
          (omega arith)
          placed
          six_filled
          simulated_partly)
    ⊎ (IsFillable ⦃fl = whole⦄ plain order six_at_four (at 2)
        × Filled ⦃fl = whole⦄ plain order six_at_four
            (at 2)
            plain-RoundTrips
            (omega arith)
            placed
            six_filled
            simulated_partly)
unfolding simulate_limit_fill record_no_fill record_fill require_actionable read_retained
    append_event announce paper_event PaperLedger.append retained_state replay replay_step risk_part
    evidence_part Retained.event_payload apply events_for event_type_value whole ◌+ℤ◌ ◌-ℤ◌ ◌*ℤ◌
    abs_ℤ is_limit_eligible effective_fill_price Intent.evaluate position_quantity signed_notional
    gross_notional
simulate_limit_fill-IsFillable_example =
    simulate_limit_fill-IsFillable ⦃fl = whole⦄ plain order six_at_four (at 2) plain-RoundTrips
      (omega arith) placed {made = six_filled} {s' = simulated_partly} refl
