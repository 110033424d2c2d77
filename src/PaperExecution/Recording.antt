-- ===== src/PaperExecution/Recording.antt =====
-- The writes of `submit` for a new order ID: three events, which replay to the returned order.
use algo_manus.Prelude.{
  String, Bool, true, false, List, [], ◌∷◌, ◌++◌, ◌≡◌, ◌⊎◌, inl, inr, refl, subst, arith, contains,
  if◌then◌else◌,
}
use algo_manus.Prelude.Result.{ok}
use algo_manus.Prelude.Exec.{pure, bind-ok, ◌>>=◌}
use algo_manus.Prelude.Floats.{Floats}
use algo_manus.Prelude.Time.{Datetime}
use algo_manus.Prelude.Json.{Dict, Codec, RoundTrips}
use algo_manus.Risk.Intent.{OrderIntent, RiskDecision}
use algo_manus.Risk.Engine.{RiskEngineDecision}
use algo_manus.Paper.{PaperOrderStatus, PaperEventType, PaperSubmission, PaperOrder, apply}
use algo_manus.PaperLedger.{PaperLedger, order_ids, events_for}
use algo_manus.PaperExecution.Retained.{
  RetainedPaperState, replay_step, retained_state, risk_part, evidence_part, initial,
}
use algo_manus.PaperExecution.Events.{ServiceState, paper_event, append_event, paper_order, Action}
use algo_manus.PaperExecution.Effects.{ledger-append_event, retained-append_event}
use algo_manus.PaperExecution.Submission.{
  Proposal, record_submission, submission, proposed_terms, accepted_terms, rejected_terms,
  risk_terms,
}
use algo_manus.PaperExecution.Agreement.{Replays, Agrees}

append_three :
    {A : Type 0} (xs : List A) (a b c : A)
    → ((xs ++ a ∷ []) ++ b ∷ []) ++ c ∷ [] ≡ xs ++ a ∷ b ∷ c ∷ []
append_three [] a b c = refl
append_three (x ∷ xs) a b c = rw (append_three xs a b c) refl

module _ {T : Type 0} where
  -- A ledger without the order ID has no events of the order.
  events_for-fresh :
      (ledger : PaperLedger T) (id : String)
      → contains id (order_ids ledger) ≡ false
      → events_for ledger id ≡ []
  unfolding events_for order_ids
  events_for-fresh [] id h = refl
  events_for-fresh (e ∷ ledger) id h = ground (arith, events_for-fresh ledger id)

module _ {F T : Type 0} ⦃fl : Floats F⦄ (codec : Codec F T) where
  -- The retained state after the three events of `submit`.
  abbrev decided : Bool → RetainedPaperState F
  decided allowed = record initial {
    status = elim allowed [
      | true ↦ PaperOrderStatus.risk_approved
      | false ↦ PaperOrderStatus.pending_risk
    ];
    risk_seen = true;
  }

  step_proposed :
      (i : OrderIntent F) (at : Datetime)
      → replay_step i.quantity initial PaperEventType.order_proposed at (proposed_terms codec i)
        ≡ ok initial
  unfolding replay_step risk_part evidence_part apply
  step_proposed i at = ground arith

  step_decided :
      (p : Proposal F) (central : RiskEngineDecision) (decision : RiskDecision) (at : Datetime)
      → replay_step p.intent.quantity initial PaperEventType.risk_decision at
          (risk_terms codec p central decision)
        ≡ ok (decided decision.allowed)
  unfolding replay_step risk_part evidence_part apply
  step_decided p central decision at = ground arith

  step_accepted :
      (i : OrderIntent F) (at : Datetime)
      → replay_step i.quantity
          (decided true)
          PaperEventType.order_accepted
          at
          (accepted_terms codec i)
        ≡ ok (record (decided true) { status = PaperOrderStatus.accepted })
  unfolding replay_step risk_part evidence_part apply
  step_accepted i at = ground arith

  step_rejected :
      (i : OrderIntent F) (decision : RiskDecision) (at : Datetime)
      → replay_step i.quantity
          (decided false)
          PaperEventType.order_rejected
          at
          (rejected_terms codec i decision)
        ≡ ok (record (decided false) { status = PaperOrderStatus.rejected })
  unfolding replay_step risk_part evidence_part apply
  step_rejected i decision at = ground arith

  module _ (p : Proposal F) (at : Datetime) where
    -- The three events that `submit` writes for a new order, the last of type `e` with the payload
    -- `terms`, from which the returned order can be replayed.
    pub record Wrote (central : RiskEngineDecision) (decision : RiskDecision) (e : PaperEventType)
        (terms : Dict F) (s s' : ServiceState F T) (order : PaperOrder F) : Type 0 where
      pub three_events :
          s'.ledger
          ≡ s.ledger
            ++ paper_event codec PaperEventType.order_proposed p.intent at
                (proposed_terms codec p.intent)
              ∷ paper_event codec PaperEventType.risk_decision p.intent at
                  (risk_terms codec p central decision)
              ∷ paper_event codec e p.intent at terms
              ∷ []
      pub replays : Replays codec order s'

    three_events_lem :
        (law : RoundTrips codec) (central : RiskEngineDecision) (decision : RiskDecision)
        (e : PaperEventType) (terms : Dict F) (status : PaperOrderStatus)
        (s s1 s2 s' : ServiceState F T) (r : RetainedPaperState F)
        → contains p.intent.order_id (order_ids s.ledger) ≡ false
        → append_event codec PaperEventType.order_proposed p.intent at
            (proposed_terms codec p.intent)
            s
          ≡ (ok tt, s1)
        → append_event codec PaperEventType.risk_decision p.intent at
            (risk_terms codec p central decision)
            s1
          ≡ (ok tt, s2)
        → append_event codec e p.intent at terms s2 ≡ (ok tt, s')
        → replay_step p.intent.quantity (decided decision.allowed) e at terms ≡ ok r
        → Agrees (paper_order p.intent status at) r
        → Wrote central decision e terms s s' (paper_order p.intent status at)
    unfolding retained_state
    three_events_lem law central decision e terms status s s1 s2 s' r fresh w1 w2 w3 step agrees =
        let proposed = proposed_terms codec p.intent in
        let risk = risk_terms codec p central decision in
        let before : retained_state codec p.intent.quantity (events_for s.ledger p.intent.order_id)
            ≡ ok initial =
          rw (events_for-fresh s.ledger p.intent.order_id fresh) refl in
        let r1 =
          retained-append_event codec law PaperEventType.order_proposed p.intent at proposed s w1
            before (step_proposed p.intent at) in
        let r2 =
          retained-append_event codec law PaperEventType.risk_decision p.intent at risk s1 w2 r1
            (step_decided p central decision at) in
        record {
          three_events =
              rw
                (
                  ledger-append_event codec e p.intent at terms s2 w3,
                  ledger-append_event codec PaperEventType.risk_decision p.intent at risk s1 w2,
                  ledger-append_event codec PaperEventType.order_proposed p.intent at proposed s w1,
                )
                (append_three s.ledger _ _ _);
          replays = record {
            retained = r;
            replayed = retained-append_event codec law e p.intent at terms s2 w3 r2 step;
            agrees = agrees;
          };
        }

    -- The two outcomes of the writes: accepted, or rejected.
    abbrev pub Outcome :
        RiskEngineDecision
        → RiskDecision
        → ServiceState F T
        → PaperSubmission F
        → ServiceState F T
        → Type 0
    Outcome central decision s made s' =
        ((decision.allowed ≡ true)
          × (made ≡ submission p central decision PaperOrderStatus.accepted at)
          × Wrote central decision PaperEventType.order_accepted (accepted_terms codec p.intent) s
              s' (paper_order p.intent PaperOrderStatus.accepted at))
        ⊎ ((decision.allowed ≡ false)
            × (made ≡ submission p central decision PaperOrderStatus.rejected at)
            × Wrote central decision PaperEventType.order_rejected
                (rejected_terms codec p.intent decision) s s'
                (paper_order p.intent PaperOrderStatus.rejected at))

    -- The last write of `submit` and its result.
    abbrev ending : Bool → RiskEngineDecision → RiskDecision → Action F T (PaperSubmission F)
    ending allowed central decision =
        if allowed
        then (append_event codec PaperEventType.order_accepted p.intent at
              (accepted_terms codec p.intent)
            >>= λ _. pure (submission p central decision PaperOrderStatus.accepted at))
        else (append_event codec PaperEventType.order_rejected p.intent at
              (rejected_terms codec p.intent decision)
            >>= λ _. pure (submission p central decision PaperOrderStatus.rejected at))

    pub record_submission-Wrote :
        (law : RoundTrips codec) (central : RiskEngineDecision) (decision : RiskDecision)
        (s : ServiceState F T) {made : PaperSubmission F} {s' : ServiceState F T}
        → contains p.intent.order_id (order_ids s.ledger) ≡ false
        → record_submission codec p central decision at s ≡ (ok made, s')
        → Outcome central decision s made s'
    unfolding record_submission
    record_submission-Wrote law central decision s {made} {s'} fresh h =
        let (_, s1, e1, h1) =
          bind-ok
            (append_event codec PaperEventType.order_proposed p.intent at
              (proposed_terms codec p.intent))
            _ s h in
        let (_, s2, e2, h2) =
          bind-ok
            (append_event codec PaperEventType.risk_decision p.intent at
              (risk_terms codec p central decision))
            _ s1 h1 in
        third s1 s2 e1 e2 decision.allowed refl h2
      where
        third :
            (s1 s2 : ServiceState F T)
            → append_event codec PaperEventType.order_proposed p.intent at
                (proposed_terms codec p.intent)
                s
              ≡ (ok tt, s1)
            → append_event codec PaperEventType.risk_decision p.intent at
                (risk_terms codec p central decision)
                s1
              ≡ (ok tt, s2)
            → (allowed : Bool) → decision.allowed ≡ allowed
            → ending allowed central decision s2 ≡ (ok made, s')
            → Outcome central decision s made s'
        third s1 s2 w1 w2 true e h =
            let (_, s3, w3, h3) =
              bind-ok
                (append_event codec PaperEventType.order_accepted p.intent at
                  (accepted_terms codec p.intent))
                _ s2 h in
            let same : s3 ≡ s' = ground arith in
            let made_as : made ≡ submission p central decision PaperOrderStatus.accepted at =
              ground arith in
            inl (
              e,
              made_as,
              three_events_lem law central decision PaperEventType.order_accepted
                  (accepted_terms codec p.intent) PaperOrderStatus.accepted s s1 s2 s'
                  (record (decided true) { status = PaperOrderStatus.accepted }) fresh w1 w2
                  (subst
                    (λ x.
                      append_event codec PaperEventType.order_accepted p.intent at
                        (accepted_terms codec p.intent) s2
                      ≡ (ok tt, x))
                    same w3)
                  (rw e (step_accepted p.intent at))
                  (record {
                    status = refl;
                    filled_quantity = refl;
                    filled_at = refl;
                    fill_price = refl;
                    disposition = refl;
                  }),
            )
        third s1 s2 w1 w2 false e h =
            let (_, s3, w3, h3) =
              bind-ok
                (append_event codec PaperEventType.order_rejected p.intent at
                  (rejected_terms codec p.intent decision))
                _ s2 h in
            let same : s3 ≡ s' = ground arith in
            let made_as : made ≡ submission p central decision PaperOrderStatus.rejected at =
              ground arith in
            inr (
              e,
              made_as,
              three_events_lem law central decision PaperEventType.order_rejected
                  (rejected_terms codec p.intent decision) PaperOrderStatus.rejected s s1 s2 s'
                  (record (decided false) { status = PaperOrderStatus.rejected }) fresh w1 w2
                  (subst
                    (λ x.
                      append_event codec PaperEventType.order_rejected p.intent at
                        (rejected_terms codec p.intent decision) s2
                      ≡ (ok tt, x))
                    same w3)
                  (rw e (step_rejected p.intent decision at))
                  (record {
                    status = refl;
                    filled_quantity = refl;
                    filled_at = refl;
                    fill_price = refl;
                    disposition = refl;
                  }),
            )
