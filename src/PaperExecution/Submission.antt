-- ===== src/PaperExecution/Submission.antt =====
-- `PaperExecutionService.submit`.
use mathlib.Core.Option
use algo_manus.Prelude.{
  String, Bool, true, false, Option, none, some, List, [], ◌∷◌, ◌&&◌, is_none, contains, ◌+++◌,
  if◌then◌else◌,
}
use algo_manus.Prelude.Int.{ℤ, pos, ◌+ℤ◌, eqb_ℤ}
use algo_manus.Prelude.Result.{Result, ok, err}
use algo_manus.Prelude.Exec.{pure, lift, gets, ◌>>=◌, ◌>>◌}
use algo_manus.Prelude.Floats.{Floats}
use algo_manus.Prelude.Time.{Datetime}
use algo_manus.Prelude.Json.{Dict, Codec, boolean, text, empty, put, optional_text}
use algo_manus.Vocabulary.{InstrumentStatus, DatasetValidationOutcome}
use algo_manus.Risk.Intent.{
  OrderIntent, PaperPortfolioSnapshot, RiskLimits, RiskDecision, side_value,
}
use algo_manus.Risk.Intent
use algo_manus.Risk.Engine
use algo_manus.Risk.Engine.{
  CentralRiskPolicy, PortfolioRiskSnapshot, RiskEngineDecision, RiskDecisionType,
  decision_type_value, decision_code_value,
}
use algo_manus.Risk.Controls.{RiskControlSnapshot}
use algo_manus.Paper.{PaperOrderStatus, PaperEventType, PaperSubmission, PaperPromotionEvidence}
use algo_manus.PaperLedger.{PaperLedger, order_ids}
use algo_manus.PaperExecution.Events.{Action, lifecycle_terms, paper_order, append_event}

-- `self._central_policy` and `self._require_promotion_evidence`; the two policies that evaluate
-- have no state.
pub record ServiceConfig (F : Type 0) : Type 0 where
  pub central_policy : CentralRiskPolicy F
  pub require_promotion_evidence : Bool

-- The keyword arguments of `submit`.
pub record Proposal (F : Type 0) : Type 0 where
  pub intent : OrderIntent F
  pub portfolio : PaperPortfolioSnapshot F
  pub marks : List (String × F)
  pub limits : RiskLimits F
  pub kill_switch_active : Bool
  pub instrument_status : Option InstrumentStatus
  pub validation_outcome : Option DatasetValidationOutcome
  pub portfolio_risk : Option (PortfolioRiskSnapshot F)
  pub promotion_evidence : Option PaperPromotionEvidence
  pub control_snapshot : Option (RiskControlSnapshot F)

-- `sum(1 for quantity in positions.values() if quantity != 0)`
abbrev pub open_positions : List (String × ℤ) → ℤ
open_positions [] = pos 0
open_positions ((_, quantity) ∷ rest) =
    if eqb_ℤ quantity (pos 0) then open_positions rest else pos 1 +ℤ open_positions rest

abbrev pub is_allow : RiskDecisionType → Bool
is_allow RiskDecisionType.allow = true
is_allow _ = false

module _ {F : Type 0} where
  -- `active_kill_switch`: the durable switch, where there is a control snapshot.
  abbrev pub kill_switch : Proposal F → Bool
  kill_switch p = elim p.control_snapshot [
    | none ↦ p.kill_switch_active
    | some snapshot ↦ snapshot.kill_switch_change.active
  ]

  abbrev pub promotion_terms : Option PaperPromotionEvidence → Dict F
  promotion_terms evidence =
      put "research_batch_id"
        (optional_text (Option.map (λ (e : PaperPromotionEvidence). e.batch_id) evidence))
        (put "research_manifest_id"
          (optional_text (Option.map (λ (e : PaperPromotionEvidence). e.manifest_id) evidence))
          (put "research_dataset_id"
            (optional_text (Option.map (λ (e : PaperPromotionEvidence). e.dataset_id) evidence))
            (put "research_validation_policy_version"
              (optional_text
                (Option.map (λ (e : PaperPromotionEvidence). e.validation_policy_version) evidence))
              empty)))

  abbrev pub submission :
      Proposal F
      → RiskEngineDecision
      → RiskDecision
      → PaperOrderStatus
      → Datetime
      → PaperSubmission F
  submission p central decision status at = record {
    order = paper_order p.intent status at;
    decision = decision;
    central_decision = central;
  }

module _ {F T : Type 0} ⦃fl : Floats F⦄ (codec : Codec F T) where
  -- The decision of `submit` before anything is written: the central decision, and the decision
  -- that the ledger records.
  unfoldable pub decide :
      ServiceConfig F → Proposal F → PaperLedger T → Result (RiskEngineDecision × RiskDecision)
  decide config p ledger =
      let active_policy : CentralRiskPolicy F = elim p.control_snapshot [
        | none ↦ config.central_policy
        | some snapshot ↦ snapshot.policy
      ] in
      let kill_switch_active = kill_switch p in
      elim (Engine.evaluate p.intent active_policy (record {
        kill_switch_active = kill_switch_active;
        seen_order_ids = order_ids ledger;
        open_position_count = open_positions p.portfolio.positions;
        instrument_status = p.instrument_status;
        validation_outcome = p.validation_outcome;
        portfolio_risk = p.portfolio_risk;
      })) [
        | err e ↦ err e
        | ok central ↦ ok (
          central,
          if config.require_promotion_evidence && is_none p.promotion_evidence
              then record {
                allowed = false;
                code = "RESEARCH_EVIDENCE_MISSING";
                reason = "persisted research promotion evidence is required";
              }
              else if is_allow central.decision_type
              then Intent.evaluate p.intent p.portfolio p.marks p.limits kill_switch_active
              else record {
                allowed = false;
                code =
                    "CENTRAL_"
                    +++ decision_type_value central.decision_type
                    +++ "_"
                    +++ decision_code_value central.code;
                reason = central.reason;
              },
        )
      ]

  -- The payload of the RISK_DECISION event.
  abbrev pub risk_terms : Proposal F → RiskEngineDecision → RiskDecision → Dict F
  risk_terms p central decision = put "allowed" (boolean decision.allowed) (
      put "code" (text decision.code) (
        put "reason" (text decision.reason) (
          put "central_policy_version" (text central.policy_version) (
            put "central_policy_persisted_at"
              (optional_text (
                Option.map (λ (c : RiskControlSnapshot F). codec.isoformat c.policy_persisted_at)
                  p.control_snapshot))
              (put "kill_switch_change_id"
                (optional_text (
                  Option.map (λ (c : RiskControlSnapshot F). c.kill_switch_change.change_id)
                    p.control_snapshot))
                (put "durable_kill_switch_active" (boolean (kill_switch p)) (
                  put "central_decision_type" (text (decision_type_value central.decision_type)) (
                    put "central_decision_code" (text (decision_code_value central.code)) (
                      put "central_reason" (text central.reason)
                        (promotion_terms p.promotion_evidence))))))))))

  -- The payloads of ORDER_PROPOSED, ORDER_ACCEPTED and ORDER_REJECTED.
  abbrev pub proposed_terms : OrderIntent F → Dict F
  proposed_terms intent =
      put "paper_only" (boolean true)
        (put "strategy_revision_id" (text intent.strategy_revision_id) (lifecycle_terms intent))

  abbrev pub accepted_terms : OrderIntent F → Dict F
  accepted_terms intent = put "risk_event_required" (boolean true) (proposed_terms intent)

  abbrev pub rejected_terms : OrderIntent F → RiskDecision → Dict F
  rejected_terms intent decision =
      put "code" (text decision.code) (put "paper_only" (boolean true) (lifecycle_terms intent))

  -- The writes of `submit`, for an order ID that the ledger has not seen.
  unfoldable pub record_submission :
      Proposal F → RiskEngineDecision → RiskDecision → Datetime → Action F T (PaperSubmission F)
  record_submission p central decision at = do
    append_event codec PaperEventType.order_proposed p.intent at (proposed_terms p.intent)
    append_event codec PaperEventType.risk_decision p.intent at (risk_terms p central decision)
    if decision.allowed
        then (do
          append_event codec PaperEventType.order_accepted p.intent at (accepted_terms p.intent)
          pure (submission p central decision PaperOrderStatus.accepted at))
        else do
          append_event codec PaperEventType.order_rejected p.intent at
              (rejected_terms p.intent decision)
          pure (submission p central decision PaperOrderStatus.rejected at)

  -- `submit`
  unfoldable pub submit : ServiceConfig F → Proposal F → Datetime → Action F T (PaperSubmission F)
  submit config p at = do
    ledger ← gets (λ s. s.ledger)
    (central, decision) ← lift (decide config p ledger)
    if contains p.intent.order_id (order_ids ledger)
        then pure (submission p central decision PaperOrderStatus.rejected at)
        else record_submission p central decision at
