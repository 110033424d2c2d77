-- ===== src/PaperExecution/Closing.antt =====
-- `work`, `cancel` and `reconcile` record what they return.
use algo_manus.Prelude.{String, true, false, some, ◌≡◌, refl, sym, ap, ◌∙◌, subst, arith}
use algo_manus.Prelude.Result.{ok}
use algo_manus.Prelude.Exec.{bind-ok}
use algo_manus.Prelude.Int.{ℤ, pos, ◌≤ℤ◌}
use algo_manus.Prelude.Floats.{Floats}
use algo_manus.Prelude.Time.{Datetime}
use algo_manus.Prelude.Json.{Dict, Codec, RoundTrips, text, integer, boolean, put, empty}
use algo_manus.Vocabulary.{ReconciliationDisposition, disposition_value}
use algo_manus.Risk.Intent.{OrderIntent}
use algo_manus.Paper.{PaperOrderStatus, PaperEventType, PaperOrder, apply, same_status}
use algo_manus.Paper.Lifecycle.{same_status_iff}
use algo_manus.PaperLedger.{events_for}
use algo_manus.PaperExecution.Retained.{
  RetainedPaperState, replay_step, retained_state, risk_part, evidence_part, parse_disposition,
}
use algo_manus.PaperExecution.Consistency.{
  retained_state-IsConsistent, precedes_fills, is_reconciled,
}
use algo_manus.PaperExecution.Events.{
  ServiceState, append_event, require_actionable, read_retained, lifecycle_terms, paper_order,
  with_retained, is_actionable, is_terminal,
}
use algo_manus.PaperExecution.Effects.{require_actionable-ok}
use algo_manus.PaperExecution.Operations.{work, cancel, reconcile}
use algo_manus.PaperExecution.Agreement.{Agrees, Recorded, finish}

pub actionable-live : (s : PaperOrderStatus) → is_actionable s ≡ true → is_reconciled s ≡ false
actionable-live s h = ground arith

module _ {F T : Type 0} ⦃fl : Floats F⦄ (codec : Codec F T) where
  work_parts :
      (order : PaperOrder F) (at : Datetime) (s : ServiceState F T) {o' : PaperOrder F}
      {s' : ServiceState F T}
      → work codec order at s ≡ (ok o', s')
      → (r : RetainedPaperState F) × (s1 : ServiceState F T) × (require_actionable codec order s
          ≡ (ok r, s1))
        × (r.status ≡ PaperOrderStatus.accepted)
        × (append_event codec PaperEventType.order_working order.intent at
              (lifecycle_terms order.intent)
              s1
            ≡ (ok tt, s'))
        × (o' ≡ paper_order order.intent PaperOrderStatus.working order.submitted_at)
  unfolding work
  work_parts order at s h =
      let (r, s1, e1, h1) = bind-ok (require_actionable codec order) _ s h in
      (r, s1, e1, ground arith, ground arith, ground arith)

  step_working :
      (q : ℤ) (r : RetainedPaperState F) (at : Datetime) (payload : Dict F)
      → r.status ≡ PaperOrderStatus.accepted
      → replay_step q r PaperEventType.order_working at payload
        ≡ ok (record r { status = PaperOrderStatus.working })
  unfolding replay_step risk_part evidence_part apply
  step_working q r at payload e = ground arith

  step_cancelled :
      (q : ℤ) (r : RetainedPaperState F) (at : Datetime) (payload : Dict F)
      → is_actionable r.status ≡ true
      → replay_step q r PaperEventType.order_cancelled at payload
        ≡ ok (record r { status = PaperOrderStatus.cancelled })
  unfolding replay_step risk_part evidence_part apply
  step_cancelled q r at payload e = ground arith

  -- The payloads of `cancel` and of `reconcile`.
  abbrev pub cancel_terms : OrderIntent F → RetainedPaperState F → String → Dict F
  cancel_terms intent r reason = put "reason" (text reason) (
      put "cumulative_filled_quantity" (integer r.filled_quantity)
        (put "paper_only" (boolean true) (lifecycle_terms intent)))

  abbrev pub reconcile_terms : RetainedPaperState F → ReconciliationDisposition → String → Dict F
  reconcile_terms r disposition reason = put "paper_only" (boolean true) (
      put "disposition" (text (disposition_value disposition)) (
        put "reason" (text reason)
          (put "cumulative_filled_quantity" (integer r.filled_quantity) empty)))

  cancel_parts :
      (order : PaperOrder F) (reason : String) (at : Datetime) (s : ServiceState F T)
      {o' : PaperOrder F} {s' : ServiceState F T}
      → cancel codec order reason at s ≡ (ok o', s')
      → (r : RetainedPaperState F) × (s1 : ServiceState F T) × (require_actionable codec order s
          ≡ (ok r, s1))
        × (append_event codec PaperEventType.order_cancelled order.intent at
              (cancel_terms order.intent r reason)
              s1
            ≡ (ok tt, s'))
        × (o' ≡ with_retained order r PaperOrderStatus.cancelled)
  unfolding cancel
  cancel_parts order reason at s h =
      let (r, s1, e1, h1) = bind-ok (require_actionable codec order) _ s h in
      (r, s1, e1, ground arith, ground arith)

  reconcile_parts :
      (order : PaperOrder F) (disposition : ReconciliationDisposition) (reason : String)
      (at : Datetime) (s : ServiceState F T) {o' : PaperOrder F} {s' : ServiceState F T}
      → reconcile codec order disposition reason at s ≡ (ok o', s')
      → (r : RetainedPaperState F) × (retained_state codec order.intent.quantity
            (events_for s.ledger order.intent.order_id)
          ≡ ok r)
        × (is_terminal order.status ≡ true)
        × (same_status r.status order.status ≡ true)
        × (append_event codec PaperEventType.reconciliation_recorded order.intent at
              (reconcile_terms r disposition reason)
              s
            ≡ (ok tt, s'))
        × (o' ≡ record (with_retained order r PaperOrderStatus.reconciled) {
          reconciliation_disposition = some disposition;
        })
  unfolding reconcile read_retained
  reconcile_parts order disposition reason at s h =
      let (r, s1, e1, h1) = bind-ok (read_retained codec order) _ s h in
      (r, ground arith, ground arith, ground arith, ground arith, ground arith)

  step_reconciled :
      (q : ℤ) (r : RetainedPaperState F) (at : Datetime) (disposition : ReconciliationDisposition)
      (reason : String)
      → is_terminal r.status ≡ true
      → replay_step q r PaperEventType.reconciliation_recorded at
          (reconcile_terms r disposition reason)
        ≡ ok (record r {
          status = PaperOrderStatus.reconciled;
          reconciliation_disposition = some disposition;
        })
  unfolding replay_step risk_part evidence_part apply parse_disposition disposition_value
  step_reconciled q r at ReconciliationDisposition.matched reason e = ground arith
  step_reconciled q r at _ reason e = ground arith

  module _ (law : RoundTrips codec) (order : PaperOrder F)
      (positive : pos 0 ≤ℤ order.intent.quantity) where
    -- For an order of at least zero units and a codec that loads what it dumps: when `work` returns, it has written one ORDER_WORKING event, the order was accepted before,
    -- and the order that it returns is the one that a replay of the ledger shows.
    pub work-Recorded :
        (at : Datetime) (s : ServiceState F T) {o' : PaperOrder F} {s' : ServiceState F T}
        → work codec order at s ≡ (ok o', s')
        → (order.status ≡ PaperOrderStatus.accepted)
          × (o'.status ≡ PaperOrderStatus.working)
          × Recorded codec PaperEventType.order_working order at
              (lifecycle_terms order.intent)
              s
              o'
              s'
    work-Recorded at s {o'} {s'} h =
        let (r, s1, e1, accepted, wrote, made) = work_parts order at s h in
        let (same, before, _, status) = require_actionable-ok codec order s e1 in
        let c = retained_state-IsConsistent order.intent.quantity codec _ r positive before in
        let early : precedes_fills r.status ≡ true = ap precedes_fills accepted in
        let r' : RetainedPaperState F = record r { status = PaperOrderStatus.working } in
        (
          sym status ∙ accepted,
          ap (λ (o : PaperOrder F). o.status) made,
          finish codec law PaperEventType.order_working order o' at (lifecycle_terms order.intent) s
              s1 s' r r' same before wrote
              (step_working order.intent.quantity r at (lifecycle_terms order.intent) accepted)
              (ap (λ (o : PaperOrder F). o.intent) made)
              (subst (λ (o : PaperOrder F). Agrees o r') (sym made)
                (record {
                  status = refl;
                  filled_quantity = sym (c.unfilled early);
                  filled_at = sym (c.untimed early);
                  fill_price = sym (c.unpriced early);
                  disposition = sym (c.undecided (ap is_reconciled accepted));
                })),
        )

    -- For an order of at least zero units and a codec that loads what it dumps: when `cancel` returns, it has written one ORDER_CANCELLED event, the order was actionable
    -- before, and the order that it returns, CANCELLED with the fills so far, is the one that a
    -- replay of the ledger shows.
    pub cancel-Recorded :
        (reason : String) (at : Datetime) (s : ServiceState F T) {o' : PaperOrder F}
        {s' : ServiceState F T}
        → cancel codec order reason at s ≡ (ok o', s')
        → (r : RetainedPaperState F) × (is_actionable order.status ≡ true)
          × (o' ≡ with_retained order r PaperOrderStatus.cancelled)
          × Recorded codec PaperEventType.order_cancelled order at
              (cancel_terms order.intent r reason)
              s
              o'
              s'
    cancel-Recorded reason at s {o'} {s'} h =
        let (r, s1, e1, wrote, made) = cancel_parts order reason at s h in
        let (same, before, actionable, status) = require_actionable-ok codec order s e1 in
        let c = retained_state-IsConsistent order.intent.quantity codec _ r positive before in
        let live : is_actionable r.status ≡ true = ap is_actionable status ∙ actionable in
        let r' : RetainedPaperState F = record r { status = PaperOrderStatus.cancelled } in
        (
          r,
          actionable,
          made,
          finish codec law PaperEventType.order_cancelled order o' at
              (cancel_terms order.intent r reason) s s1 s' r r' same before wrote
              (step_cancelled order.intent.quantity r at (cancel_terms order.intent r reason) live)
              (ap (λ (o : PaperOrder F). o.intent) made)
              (subst (λ (o : PaperOrder F). Agrees o r') (sym made)
                (record {
                  status = refl;
                  filled_quantity = refl;
                  filled_at = refl;
                  fill_price = refl;
                  disposition = sym (c.undecided (actionable-live r.status live));
                })),
        )

    -- For an order of at least zero units and a codec that loads what it dumps: when `reconcile` returns, it has written one RECONCILIATION_RECORDED event, the order was
    -- rejected, filled or cancelled before, and the order that it returns, RECONCILED with the
    -- fills so far and the given disposition, is the one that a replay of the ledger shows.
    pub reconcile-Recorded :
        (disposition : ReconciliationDisposition) (reason : String) (at : Datetime)
        (s : ServiceState F T) {o' : PaperOrder F} {s' : ServiceState F T}
        → reconcile codec order disposition reason at s ≡ (ok o', s')
        → (r : RetainedPaperState F) × (is_terminal order.status ≡ true)
          × (o' ≡ record (with_retained order r PaperOrderStatus.reconciled) {
            reconciliation_disposition = some disposition;
          })
          × Recorded codec PaperEventType.reconciliation_recorded order at
              (reconcile_terms r disposition reason)
              s
              o'
              s'
    reconcile-Recorded disposition reason at s {o'} {s'} h =
        let (r, before, terminal, matches, wrote, made) =
          reconcile_parts order disposition reason at s h in
        let status = (same_status_iff r.status order.status).0 matches in
        let closed : is_terminal r.status ≡ true = ap is_terminal status ∙ terminal in
        let r' : RetainedPaperState F = record r {
          status = PaperOrderStatus.reconciled;
          reconciliation_disposition = some disposition;
        } in
        (
          r,
          terminal,
          made,
          finish codec law PaperEventType.reconciliation_recorded order o' at
              (reconcile_terms r disposition reason) s s s' r r' refl before wrote
              (step_reconciled order.intent.quantity r at disposition reason closed)
              (ap (λ (o : PaperOrder F). o.intent) made)
              (subst (λ (o : PaperOrder F). Agrees o r') (sym made)
                (record {
                  status = refl;
                  filled_quantity = refl;
                  filled_at = refl;
                  fill_price = refl;
                  disposition = refl;
                })),
        )
