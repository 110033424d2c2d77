-- ===== src/PaperExecution/Admission.antt =====
-- `submit`: what an accepted order has passed, and what each outcome writes.
use algo_manus.Prelude.{
  true, false, none, some, ◌≡◌, ◌⊎◌, inl, inr, refl, sym, subst, arith, ◌&&◌, contains, is_none,
  Bool-cases,
}
use algo_manus.Prelude.Result.{ok, Result-cases}
use algo_manus.Prelude.Floats.{Floats}
use algo_manus.Prelude.Time.{Datetime}
use algo_manus.Prelude.Json.{Codec, RoundTrips}
use algo_manus.Risk.Intent.{OrderIntent, RiskDecision}
use algo_manus.Risk.Intent
use algo_manus.Risk.Policy.{IsWithinLimits, evaluate_iff}
use algo_manus.Risk.Engine.{
  CentralRiskPolicy, RiskEvaluationContext, RiskEngineDecision, RiskDecisionType,
}
use algo_manus.Risk.Engine
use algo_manus.Risk.Engine.Decision.{IsFresh, IsContextComplete, IsWithinPolicy, evaluate-Decides}
use algo_manus.Paper.{PaperOrderStatus, PaperEventType, PaperSubmission}
use algo_manus.PaperLedger.{PaperLedger, order_ids}
use algo_manus.PaperExecution.Events.{ServiceState, paper_order}
use algo_manus.PaperExecution.Submission.{
  ServiceConfig, Proposal, decide, submit, kill_switch, open_positions, accepted_terms,
  rejected_terms,
}
use algo_manus.PaperExecution.Recording.{Wrote, Outcome, record_submission-Wrote}

module _ {F : Type 0} where
  -- The policy and the context that the central engine decides with.
  abbrev pub active_policy : ServiceConfig F → Proposal F → CentralRiskPolicy F
  active_policy config p = elim p.control_snapshot [
    | none ↦ config.central_policy
    | some snapshot ↦ snapshot.policy
  ]

  abbrev pub context : {T : Type 0} → Proposal F → PaperLedger T → RiskEvaluationContext F
  context p ledger = record {
    kill_switch_active = kill_switch p;
    seen_order_ids = order_ids ledger;
    open_position_count = open_positions p.portfolio.positions;
    instrument_status = p.instrument_status;
    validation_outcome = p.validation_outcome;
    portfolio_risk = p.portfolio_risk;
  }

module _ {F T : Type 0} ⦃fl : Floats F⦄ (codec : Codec F T) (config : ServiceConfig F)
    (p : Proposal F) where
  -- What the decision of `submit` rests on where it allows the order.
  decide-allowed :
      (ledger : PaperLedger T) {central : RiskEngineDecision} {decision : RiskDecision}
      → decide codec config p ledger ≡ ok (central, decision)
      → decision.allowed ≡ true
      → ((config.require_promotion_evidence && is_none p.promotion_evidence) ≡ false)
        × (Engine.evaluate p.intent (active_policy config p) (context p ledger) ≡ ok central)
        × (central.decision_type ≡ RiskDecisionType.allow)
        × ((Intent.evaluate p.intent p.portfolio p.marks p.limits (kill_switch p)).allowed ≡ true)
  unfolding decide
  decide-allowed ledger h allowed = (ground arith, ground arith, ground arith, ground arith)

module _ {F T : Type 0} ⦃fl : Floats F⦄ (codec : Codec F T) where
  module _ (config : ServiceConfig F) (p : Proposal F) (at : Datetime) where
    -- What holds of a proposal that `submit` accepts: the kill switch is off and the order ID new,
    -- the context of the central engine is complete, both policies hold, and research evidence is
    -- there where it is required.
    pub record IsAdmissible (ledger : PaperLedger T) : Type 0 where
      pub fresh : IsFresh p.intent (context p ledger)
      pub complete : IsContextComplete (active_policy config p) (context p ledger)
      pub within_policy : IsWithinPolicy p.intent (active_policy config p) (context p ledger)
      pub within_limits : IsWithinLimits p.intent p.portfolio p.marks p.limits (kill_switch p)
      pub researched :
          config.require_promotion_evidence ≡ true → is_none p.promotion_evidence ≡ false

    allowed-IsAdmissible :
        (ledger : PaperLedger T) {central : RiskEngineDecision} {decision : RiskDecision}
        → decide codec config p ledger ≡ ok (central, decision)
        → decision.allowed ≡ true
        → IsAdmissible ledger
    allowed-IsAdmissible ledger h allowed =
        let (evidence, decided, central_allows, policy_allows) =
          decide-allowed codec config p ledger h allowed in
        let (fresh, complete, within) =
          (evaluate-Decides p.intent (active_policy config p) (context p ledger) decided).allows.0
            central_allows in
        record {
          fresh = fresh;
          complete = complete;
          within_policy = within;
          within_limits =
              (evaluate_iff p.intent p.portfolio p.marks p.limits (kill_switch p)).0 policy_allows;
          researched = λ required. ground arith;
        }

    -- The three results of `submit`: accepted, rejected, or a known order ID.
    pub Submitted : ServiceState F T → PaperSubmission F → ServiceState F T → Type 0
    Submitted s made s' =
        (IsAdmissible s.ledger
          × (made.order ≡ paper_order p.intent PaperOrderStatus.accepted at)
          × Wrote codec p at made.central_decision made.decision PaperEventType.order_accepted
              (accepted_terms codec p.intent) s s' made.order)
        ⊎ (((made.decision.allowed ≡ false)
              × (made.order ≡ paper_order p.intent PaperOrderStatus.rejected at)
              × Wrote codec p at made.central_decision made.decision PaperEventType.order_rejected
                  (rejected_terms codec p.intent made.decision) s s' made.order)
            ⊎ ((contains p.intent.order_id (order_ids s.ledger) ≡ true)
                × (made.decision.allowed ≡ false)
                × (made.order ≡ paper_order p.intent PaperOrderStatus.rejected at)
                × (s' ≡ s)))

    Submitted-Outcome :
        (central : RiskEngineDecision) (decision : RiskDecision) (s : ServiceState F T)
        {made : PaperSubmission F} {s' : ServiceState F T}
        → (decision.allowed ≡ true → IsAdmissible s.ledger)
        → Outcome codec p at central decision s made s'
        → Submitted s made s'
    unfolding Submitted
    Submitted-Outcome central decision s {made} {s'} admissible (inl (allowed, made_as, wrote)) =
        subst (λ m. Submitted s m s') (sym made_as) (inl (admissible allowed, refl, wrote))
    Submitted-Outcome central decision s {made} {s'} admissible (inr (refused, made_as, wrote)) =
        subst (λ m. Submitted s m s') (sym made_as) (inr (inl (refused, refl, wrote)))

    -- For a codec that loads what it dumps: when `submit` returns, it has done one of three things. An accepted order was admissible; its
    -- three events, the last ORDER_ACCEPTED, were added to the ledger, and their replay shows the
    -- returned order. An order that the decision does not allow is REJECTED, with three events, the
    -- last ORDER_REJECTED, and their replay shows the returned order. An order ID that the ledger
    -- has seen is REJECTED and not allowed, and nothing is written.
    pub submit-IsAdmissible :
        (law : RoundTrips codec) (s : ServiceState F T) {made : PaperSubmission F}
        {s' : ServiceState F T}
        → submit codec config p at s ≡ (ok made, s')
        → Submitted s made s'
    unfolding submit Submitted
    submit-IsAdmissible law s {made} {s'} h = elim (Result-cases (decide codec config p s.ledger)) [
      | inr (e, failed) ↦ absurd (ground (arith, failed))
      | inl ((central, decision), decided_as) ↦
          elim (Bool-cases (contains p.intent.order_id (order_ids s.ledger))) [
            | inl seen ↦
                let refused : decision.allowed ≡ false = elim (Bool-cases decision.allowed) [
                  | inr refused ↦ refused
                  | inl allowed ↦
                      absurd
                        (ground (arith, (allowed-IsAdmissible s.ledger decided_as allowed).fresh))
                ] in
                inr (inr (seen, ground arith, ground arith, ground arith))
            | inr fresh ↦
                Submitted-Outcome central decision s (allowed-IsAdmissible s.ledger decided_as)
                  (record_submission-Wrote codec p at law central decision s fresh (ground arith))
          ]
    ]
