-- ===== src/PaperProjection/Conservation/Branches.antt =====
-- What each branch of a round keeps of its order and of the positions.
use algo_manus.Prelude.{
  String, Bool, true, false, Option, none, some, List, ◌≡◌, ◌≢◌, refl, sym, ap, ◌∙◌, arith, subst,
  Bool-cases, Option-cases, inl, inr, ◌⊎◌, ◌&&◌, if◌then◌else◌,
}
use algo_manus.Prelude.Int.{ℤ, pos, ◌+ℤ◌, ◌≤ℤ◌}
use algo_manus.Prelude.Floats.{Floats}
use algo_manus.Prelude.Time.{Datetime}
use algo_manus.Prelude.Json.{Dict, get, as_text}
use algo_manus.Vocabulary.{ReconciliationDisposition}
use algo_manus.Risk.Intent.{OrderSide}
use algo_manus.Paper.{PaperOrderStatus, PaperEventType, apply}
use algo_manus.PaperExecution.Retained.{parse_disposition}
use algo_manus.PaperExecution.Consistency.{precedes_fills}
use algo_manus.PaperProjection.State.{Position, ProjectedOrder}
use algo_manus.PaperProjection.Evidence.{
  with_terms, apply_order_terms, side_of, quantity_of, matching_optional_terms, has_text,
  valid_no_fill_evidence,
}
use algo_manus.PaperProjection.Round.{Change, refused, taken, is_fill, apply_fill, stamp, by_type}
use algo_manus.PaperProjection.Conservation.{signed_fills, held, IsConsistent}
use algo_manus.PaperProjection.Conservation.Fills.{Filled, apply_fill-Filled}
use algo_manus.PaperProjection.Conservation.Keeping.{
  Kept, restated-IsConsistent, termed-IsConsistent, no_contribution, unfilled_step, terms_step,
  fill_step,
}

module _ {F : Type 0} ⦃fl : Floats F⦄ (o : ProjectedOrder F)
    (positions : List (String × Position F)) (v : IsConsistent o)
    (long : (j : String) → pos 0 ≤ℤ held j positions) where
  -- A round that leaves the positions and the fills of the order.
  same_fills-Kept :
      (c : Change F)
      → c.positions ≡ positions
      → c.order.instrument_id ≡ o.instrument_id
      → IsConsistent c.order
      → c.order.filled_quantity ≡ o.filled_quantity
      → (c.order.side ≡ o.side) ⊎ (o.filled_quantity ≡ pos 0)
      → Kept o positions c
  same_fills-Kept c p i w f s = record {
    instrument = i;
    consistent = w;
    long_only = rw p long;
    distinct = λ d. rw p d;
    balance = λ j. rw p (ap (λ x. held j positions +ℤ x) (sym (same j s)));
  }
    where
      same :
          (j : String)
          → (c.order.side ≡ o.side) ⊎ (o.filled_quantity ≡ pos 0)
          → signed_fills j c.order ≡ signed_fills j o
      same j (inl e) = rw (i, f, e) refl
      same j (inr e) = rw (i, f, e, no_contribution c.order.side, no_contribution o.side) refl

  pub refused-Kept : Kept o positions (refused o positions)
  refused-Kept = same_fills-Kept (refused o positions) refl refl v refl (inl refl)

  -- What terms that were accepted make of the order.
  terms_facts :
      (payload : Dict F) {o' : ProjectedOrder F}
      → apply_order_terms o payload ≡ some o'
      → (side : OrderSide) × (q : ℤ) × (record o { side = some side; quantity = some q } ≡ o')
        × (¬ (q ≤ℤ pos 0))
  unfolding apply_order_terms with_terms quantity_of
  terms_facts payload {o'} h = go (side_of payload) (quantity_of payload) refl h
    where
      go :
          (side : Option OrderSide) (quantity : Option ℤ)
          → quantity_of payload ≡ quantity
          → with_terms o side quantity ≡ some o'
          → (side : OrderSide) × (q : ℤ) × (record o { side = some side; quantity = some q } ≡ o')
            × (¬ (q ≤ℤ pos 0))
      go none quantity e t = cc
      go (some side) none e t = cc
      go (some side) (some q) e t = (side, q, ground arith, λ n. ground arith)

  -- A round with new terms.
  termed-Kept :
      (payload : Dict F) (next : PaperOrderStatus) (submitted_at : Option Datetime)
      → o.filled_quantity ≡ pos 0
      → next ≢ PaperOrderStatus.filled
      → {o' : ProjectedOrder F} → apply_order_terms o payload ≡ some o'
      → Kept o positions
          (taken (record o' { status = next; submitted_at = submitted_at }) positions)
  termed-Kept payload next submitted_at zero_filled not_full {o'} h =
      let (side, q, same, some_q) = terms_facts payload h in
      subst
        (λ (x : ProjectedOrder F).
          Kept o positions
            (taken (record x { status = next; submitted_at = submitted_at }) positions))
        same
        (same_fills-Kept
          (taken
            (record o {
              side = some side;
              quantity = some q;
              status = next;
              submitted_at = submitted_at;
            })
            positions)
          refl refl
          (termed-IsConsistent
            (record o {
              side = some side;
              quantity = some q;
              status = next;
              submitted_at = submitted_at;
            })
            q zero_filled refl (λ e. cc) some_q not_full)
          refl (inr zero_filled))

  -- A fill that was applied, with its status set.
  stamp-Kept :
      (completes : Bool) (next : PaperOrderStatus) (at : Datetime) (payload : Dict F) (c : Change F)
      → precedes_fills next ≡ false
      → (next ≡ PaperOrderStatus.filled → completes ≡ true)
      → Filled o positions completes c
      → Kept o positions (stamp next at payload c)
  unfolding stamp
  stamp-Kept completes next at payload c late full f = elim (Bool-cases c.valid) [
    | inl e ↦ rw e (record {
      instrument = f.instrument;
      consistent = record {
        lower = omega (arith, v.lower, f.grown);
        upper = λ q h. f.upper q (sym f.quantity ∙ h);
        no_side = λ h. absurd (f.sided e (sym f.side ∙ h));
        no_quantity = λ h. absurd (f.bounded e (sym f.quantity ∙ h));
        unfilled = λ h. cc;
        complete = λ h. f.quantity ∙ f.complete e (full h);
      };
      long_only = f.long_only;
      distinct = f.distinct;
      balance = f.balance;
    })
    | inr e ↦ rw e (record {
      instrument = f.instrument;
      consistent = record {
        lower = rw (f.refused_same e) v.lower;
        upper = λ q h. f.upper q (sym f.quantity ∙ h);
        no_side = λ h. f.refused_same e ∙ v.no_side (sym f.side ∙ h);
        no_quantity = λ h. f.refused_same e ∙ v.no_quantity (sym f.quantity ∙ h);
        unfilled =
            λ h. f.refused_same e ∙ v.unfilled (subst (λ s. precedes_fills s ≡ true) f.status h);
        complete =
            λ h. f.quantity ∙ v.complete (sym f.status ∙ h) ∙ ap some (sym (f.refused_same e));
      };
      long_only = f.long_only;
      distinct = f.distinct;
      balance = f.balance;
    })
  ]

  -- A round that sets the status, and perhaps the disposition.
  restated-Kept :
      (next : PaperOrderStatus) (e : PaperEventType) (risk : Option Bool)
      (disposition : Option ReconciliationDisposition)
      → apply o.status e risk ≡ some next
      → is_fill e ≡ false
      → Kept o positions
          (taken (record o { status = next; reconciliation_disposition = disposition }) positions)
  restated-Kept next e risk disposition step unfilled =
      let facts = unfilled_step o.status next e risk step unfilled in
      same_fills-Kept
        (taken (record o { status = next; reconciliation_disposition = disposition }) positions)
        refl refl
        (restated-IsConsistent o
          (record o { status = next; reconciliation_disposition = disposition }) v refl refl refl
          facts.0 facts.1)
        refl (inl refl)

  guarded-Kept :
      (test : Bool) (c : Change F)
      → Kept o positions c
      → Kept o positions (if test then c else refused o positions)
  guarded-Kept true c k = k
  guarded-Kept false c k = refused-Kept

  pub by_type-Kept :
      (next : PaperOrderStatus) (e : PaperEventType) (risk : Option Bool) (at : Datetime)
      (payload : Dict F)
      → apply o.status e risk ≡ some next
      → Kept o positions (by_type o positions next e at payload)
  unfolding by_type
  by_type-Kept next PaperEventType.order_proposed risk at payload step =
      elim (Option-cases (apply_order_terms o payload)) [
        | inl e ↦ rw (e, by_type) refused-Kept
        | inr (o', e) ↦
            rw (e, by_type)
              (termed-Kept payload next o'.submitted_at
                (v.unfilled (terms_step o.status next PaperEventType.order_proposed risk step refl))
                (unfilled_step o.status next PaperEventType.order_proposed risk step refl).1 e)
      ]
  by_type-Kept next PaperEventType.risk_decision risk at payload step =
      restated-Kept next PaperEventType.risk_decision risk o.reconciliation_disposition step refl
  by_type-Kept next PaperEventType.order_accepted risk at payload step =
      elim (Option-cases (apply_order_terms o payload)) [
        | inl e ↦ rw (e, by_type) refused-Kept
        | inr (o', e) ↦
            rw (e, by_type)
              (termed-Kept payload next (some at)
                (v.unfilled (terms_step o.status next PaperEventType.order_accepted risk step refl))
                (unfilled_step o.status next PaperEventType.order_accepted risk step refl).1 e)
      ]
  by_type-Kept next PaperEventType.order_submitted risk at payload step =
      elim (Option-cases (apply_order_terms o payload)) [
        | inl e ↦ rw (e, by_type) refused-Kept
        | inr (o', e) ↦
            rw (e, by_type)
              (termed-Kept payload next (some at)
                (v.unfilled
                  (terms_step o.status next PaperEventType.order_submitted risk step refl))
                (unfilled_step o.status next PaperEventType.order_submitted risk step refl).1 e)
      ]
  by_type-Kept next PaperEventType.order_partially_filled risk at payload step =
      let target = (fill_step o.status next risk).1 step in
      stamp-Kept false next at payload (apply_fill o positions false payload) (rw target) (λ e. cc)
        (apply_fill-Filled o positions false v long payload)
  by_type-Kept next PaperEventType.order_filled risk at payload step =
      let target = (fill_step o.status next risk).0 step in
      stamp-Kept true next at payload (apply_fill o positions true payload) (rw target) (λ e. refl)
        (apply_fill-Filled o positions true v long payload)
  by_type-Kept next PaperEventType.order_working risk at payload step =
      guarded-Kept (matching_optional_terms o payload) _ (
        restated-Kept next PaperEventType.order_working risk o.reconciliation_disposition step refl)
  by_type-Kept next PaperEventType.order_rejected risk at payload step =
      guarded-Kept (matching_optional_terms o payload) _ (
        restated-Kept next PaperEventType.order_rejected risk o.reconciliation_disposition step
          refl)
  by_type-Kept next PaperEventType.order_cancelled risk at payload step =
      guarded-Kept (matching_optional_terms o payload) _ (
        restated-Kept next PaperEventType.order_cancelled risk o.reconciliation_disposition step
          refl)
  by_type-Kept next PaperEventType.order_unfilled risk at payload step =
      guarded-Kept (matching_optional_terms o payload && valid_no_fill_evidence payload) _ (
        restated-Kept next PaperEventType.order_unfilled risk o.reconciliation_disposition step
          refl)
  by_type-Kept next PaperEventType.reconciliation_recorded risk at payload step =
      elim (Option-cases (parse_disposition (as_text (get payload "disposition")))) [
        | inl e ↦ rw (e, by_type) refused-Kept
        | inr (d, e) ↦
            rw (e, by_type)
              (guarded-Kept (has_text (get payload "reason")) _
                (restated-Kept next PaperEventType.reconciliation_recorded risk (some d) step refl))
      ]
