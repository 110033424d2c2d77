-- ===== src/PaperExecution/Filling.antt =====
-- `fill` and `simulate_limit_fill`: how much they fill, and that they record what they return.
use algo_manus.Prelude.{
  Bool, true, false, Option, none, some, ◌≡◌, ◌↔◌, inl, inr, refl, sym, ap, ◌∙◌, subst, arith,
  Bool-cases, if◌then◌else◌,
}
use algo_manus.Prelude.Result.{ok}
use algo_manus.Prelude.Exec.{bind-ok}
use algo_manus.Prelude.Int.{ℤ, pos, ◌+ℤ◌, ◌-ℤ◌, ◌≤ℤ◌, eqb_ℤ, eq_of_parts, int_laws}
use algo_manus.Prelude.Floats.{Floats, zero_f, ◌≼◌}
use algo_manus.Prelude.Time.{Datetime}
use algo_manus.Prelude.Json.{Dict, Codec, RoundTrips}
use algo_manus.Risk.Intent.{OrderIntent}
use algo_manus.Paper.{PaperOrderStatus, PaperEventType, PaperOrder, apply}
use algo_manus.PaperLedger.{events_for}
use algo_manus.PaperExecution.Retained.{
  RetainedPaperState, replay_step, retained_state, risk_part, evidence_part, fill_part, fill_with,
}
use algo_manus.PaperExecution.Consistency.{retained_state-IsConsistent}
use algo_manus.PaperExecution.Events.{ServiceState, append_event, require_actionable, is_actionable}
use algo_manus.PaperExecution.Effects.{require_actionable-ok}
use algo_manus.PaperExecution.Operations.{record_fill, fill, fill_terms}
use algo_manus.PaperExecution.Agreement.{Agrees, Recorded, finish}
use algo_manus.PaperExecution.Closing.{actionable-live}

abbrev pub fill_event : Bool → PaperEventType
fill_event complete =
    if complete then PaperEventType.order_filled else PaperEventType.order_partially_filled

abbrev pub fill_status : Bool → PaperOrderStatus
fill_status complete =
    if complete then PaperOrderStatus.filled else PaperOrderStatus.partially_filled

complete_iff : (a b : ℤ) → (fill_status (eqb_ℤ a b) ≡ PaperOrderStatus.filled) ↔ (a ≡ b)
complete_iff a b = (λ h. eq_of_parts a b (ground arith), λ e. rw e (ground arith))

module _ {F : Type 0} where
  -- The quantity that a call fills: the given one, or all that remains.
  abbrev pub requested : PaperOrder F → RetainedPaperState F → Option ℤ → ℤ
  requested order r quantity = elim quantity [
    | none ↦ order.intent.quantity -ℤ r.filled_quantity
    | some q ↦ q
  ]

  -- The order after a fill of `k` at `price`.
  abbrev pub filled_order : PaperOrder F → RetainedPaperState F → ℤ → F → Datetime → PaperOrder F
  filled_order order r k price at = record {
    intent = order.intent;
    status = fill_status (eqb_ℤ (r.filled_quantity +ℤ k) order.intent.quantity);
    submitted_at = order.submitted_at;
    filled_at = some at;
    fill_price = some price;
    filled_quantity = r.filled_quantity +ℤ k;
    reconciliation_disposition = none;
  }

module _ {F T : Type 0} ⦃fl : Floats F⦄ (codec : Codec F T) where
  -- What `_record_fill` has checked and written when it returns.
  record Filled (order : PaperOrder F) (price : F) (quantity : Option ℤ) (at : Datetime)
      (evidence : Option (Dict F)) (s : ServiceState F T) (o' : PaperOrder F)
      (s' : ServiceState F T) : Type 0 where
    r : RetainedPaperState F
    s1 : ServiceState F T
    read : require_actionable codec order s ≡ (ok r, s1)
    priced : (price ≼ zero_f) ≡ false
    some_quantity : ¬ (requested order r quantity ≤ℤ pos 0)
    fits : requested order r quantity ≤ℤ order.intent.quantity -ℤ r.filled_quantity
    wrote :
        append_event codec
          (fill_event
            (eqb_ℤ (r.filled_quantity +ℤ requested order r quantity) order.intent.quantity))
          order.intent
          at
          (fill_terms order.intent price
            (requested order r quantity)
            (r.filled_quantity +ℤ requested order r quantity)
            evidence)
          s1
        ≡ (ok tt, s')
    made : o' ≡ filled_order order r (requested order r quantity) price at

  record_fill_parts :
      (order : PaperOrder F) (price : F) (quantity : Option ℤ) (at : Datetime)
      (evidence : Option (Dict F)) (s : ServiceState F T) {o' : PaperOrder F}
      {s' : ServiceState F T}
      → record_fill codec order price quantity at evidence s ≡ (ok o', s')
      → Filled order price quantity at evidence s o' s'
  unfolding record_fill
  record_fill_parts order price quantity at evidence s h =
      let (r, s1, e1, h1) = bind-ok (require_actionable codec order) _ s h in
      record {
        r = r;
        s1 = s1;
        read = e1;
        priced = ground arith;
        some_quantity = ground arith;
        fits = ground arith;
        wrote = ground arith;
        made = ground arith;
      }

  step_fill :
      (q : ℤ) (r : RetainedPaperState F) (at : Datetime) (i : OrderIntent F) (price : F) (k : ℤ)
      (evidence : Option (Dict F))
      → is_actionable r.status ≡ true
      → ¬ (k ≤ℤ pos 0)
      → r.filled_quantity +ℤ k ≤ℤ q
      → (price ≼ zero_f) ≡ false
      → replay_step q r
          (fill_event (eqb_ℤ (r.filled_quantity +ℤ k) q))
          at
          (fill_terms i price k (r.filled_quantity +ℤ k) evidence)
        ≡ ok (record r {
          status = fill_status (eqb_ℤ (r.filled_quantity +ℤ k) q);
          filled_quantity = r.filled_quantity +ℤ k;
          filled_at = some at;
          fill_price = some price;
        })
  unfolding replay_step risk_part evidence_part fill_part fill_with apply
  step_fill q r at i price k none live some_quantity fits priced =
      elim (Bool-cases (eqb_ℤ (r.filled_quantity +ℤ k) q)) [
        | inl e ↦ rw e (ground arith)
        | inr e ↦ rw e (ground arith)
      ]
  step_fill q r at i price k (some evidence) live some_quantity fits priced =
      elim (Bool-cases (eqb_ℤ (r.filled_quantity +ℤ k) q)) [
        | inl e ↦ rw e (ground arith)
        | inr e ↦ rw e (ground arith)
      ]

  module _ (law : RoundTrips codec) (order : PaperOrder F)
      (positive : pos 0 ≤ℤ order.intent.quantity) where
    -- What a recorded fill of `requested order r quantity` at `price` amounts to.
    pub record FillRecorded (price : F) (quantity : Option ℤ) (at : Datetime)
        (evidence : Option (Dict F)) (s : ServiceState F T) (o' : PaperOrder F)
        (s' : ServiceState F T) : Type 0 where
      pub before : RetainedPaperState F
      pub read :
          retained_state codec order.intent.quantity (events_for s.ledger order.intent.order_id)
          ≡ ok before
      pub actionable : is_actionable before.status ≡ true
      pub some_quantity : ¬ (requested order before quantity ≤ℤ pos 0)
      pub no_overfill :
          before.filled_quantity +ℤ requested order before quantity ≤ℤ order.intent.quantity
      pub made : o' ≡ filled_order order before (requested order before quantity) price at
      pub recorded :
          Recorded codec
            (fill_event (
              eqb_ℤ
                (before.filled_quantity +ℤ requested order before quantity)
                order.intent.quantity))
            order
            at
            (fill_terms order.intent price
              (requested order before quantity)
              (before.filled_quantity +ℤ requested order before quantity)
              evidence)
            s
            o'
            s'

    pub record_fill-FillRecorded :
        (price : F) (quantity : Option ℤ) (at : Datetime) (evidence : Option (Dict F))
        (s : ServiceState F T) {o' : PaperOrder F} {s' : ServiceState F T}
        → record_fill codec order price quantity at evidence s ≡ (ok o', s')
        → FillRecorded price quantity at evidence s o' s'
    record_fill-FillRecorded price quantity at evidence s {o'} {s'} h =
        let f = record_fill_parts order price quantity at evidence s h in
        let (same, before, actionable, status) = require_actionable-ok codec order s f.read in
        let c = retained_state-IsConsistent order.intent.quantity codec _ f.r positive before in
        let live : is_actionable f.r.status ≡ true = ap is_actionable status ∙ actionable in
        let k = requested order f.r quantity in
        let fits : f.r.filled_quantity +ℤ k ≤ℤ order.intent.quantity = omega (int_laws, f.fits) in
        let complete = eqb_ℤ (f.r.filled_quantity +ℤ k) order.intent.quantity in
        let r' : RetainedPaperState F = record (f.r) {
          status = fill_status complete;
          filled_quantity = f.r.filled_quantity +ℤ k;
          filled_at = some at;
          fill_price = some price;
        } in
        record {
          before = f.r;
          read = before;
          actionable = live;
          some_quantity = f.some_quantity;
          no_overfill = fits;
          made = f.made;
          recorded =
              finish codec law (fill_event complete) order o' at
                (fill_terms order.intent price k (f.r.filled_quantity +ℤ k) evidence) s f.s1 s' f.r
                r' same before f.wrote
                (step_fill order.intent.quantity f.r at order.intent price k evidence live
                  f.some_quantity fits f.priced)
                (ap (λ (o : PaperOrder F). o.intent) f.made)
                (subst (λ (o : PaperOrder F). Agrees o r') (sym f.made)
                  (record {
                    status = refl;
                    filled_quantity = refl;
                    filled_at = refl;
                    fill_price = refl;
                    disposition = sym (c.undecided (actionable-live f.r.status live));
                  }));
        }

    -- For an order of at least zero units and a codec that loads what it dumps: when `fill` returns, the order was actionable; the quantity filled, the given one or all that
    -- remains, is positive and with the fills before it keeps to the order's quantity; the order
    -- that comes back has that quantity more, is FILLED exactly when nothing remains and
    -- PARTIALLY_FILLED otherwise; one fill event was written, and a replay of the ledger shows the
    -- returned order.
    pub fill-FillRecorded :
        (price : F) (quantity : Option ℤ) (at : Datetime) (s : ServiceState F T) {o' : PaperOrder F}
        {s' : ServiceState F T}
        → fill codec order price quantity at s ≡ (ok o', s')
        → FillRecorded price quantity at none s o' s'
          × ((o'.status ≡ PaperOrderStatus.filled) ↔ (o'.filled_quantity ≡ order.intent.quantity))
    unfolding fill
    fill-FillRecorded price quantity at s {o'} h =
        let f = record_fill-FillRecorded price quantity at none s h in
        (
          f,
          subst
              (λ (o : PaperOrder F).
                (o.status ≡ PaperOrderStatus.filled) ↔ (o.filled_quantity ≡ order.intent.quantity))
              (sym f.made)
              (complete_iff (f.before.filled_quantity +ℤ requested order f.before quantity)
                order.intent.quantity),
        )
