-- ===== src/PaperExecution/Simulation.antt =====
-- `simulate_limit_fill`: when it fills, and how much.
use algo_manus.Prelude.{
  String, Bool, true, false, Option, some, ◌≡◌, ◌↔◌, ◌⊎◌, inl, inr, refl, sym, ap, ◌∙◌, subst,
  arith, not, Bool-cases, if◌then◌else◌,
}
use algo_manus.Prelude.Result.{ok, value_error, ok-injective}
use algo_manus.Prelude.Exec.{Exec, pure, raise_if, bind-ok, pure-ok, ◌>>=◌, ◌>>◌}
use algo_manus.Prelude.Int.{
  ℤ, pos, ◌+ℤ◌, ◌-ℤ◌, ◌≤ℤ◌, eqb_ℤ, min_ℤ, eqb_ℤ_iff, int_laws, eq_of_parts,
}
use algo_manus.Prelude.Floats.{Floats}
use algo_manus.Prelude.Time.{Datetime}
use algo_manus.Prelude.Json.{Dict, Codec, RoundTrips, integer, boolean, object, put}
use algo_manus.Paper.{
  PaperEventType, PaperOrder, PaperFillSimulation, PaperFillSimulationOutcome,
  LocalLimitFillAssumptions, apply, is_limit, is_limit_eligible, effective_fill_price,
  event_payload,
}
use algo_manus.PaperLedger.{events_for}
use algo_manus.PaperExecution.Retained.{
  RetainedPaperState, replay_step, retained_state, risk_part, evidence_part,
}
use algo_manus.PaperExecution.Consistency.{retained_state-IsConsistent}
use algo_manus.PaperExecution.Events.{
  ServiceState, append_event, require_actionable, lifecycle_terms, with_retained, is_actionable,
}
use algo_manus.PaperExecution.Effects.{require_actionable-ok}
use algo_manus.PaperExecution.Operations.{simulate_limit_fill, record_fill, record_no_fill}
use algo_manus.PaperExecution.Agreement.{Recorded, finish}
use algo_manus.PaperExecution.Closing.{actionable-live}
use algo_manus.PaperExecution.Filling.{FillRecorded, record_fill-FillRecorded}

abbrev pub outcome_of : Bool → PaperFillSimulationOutcome
outcome_of complete =
    if complete then PaperFillSimulationOutcome.filled else PaperFillSimulationOutcome.partial_fill

min_ℤ-right : (a b : ℤ) → min_ℤ a b ≤ℤ b
min_ℤ-right a b = ground arith

outcome_of_iff :
    (k q f : ℤ) → (outcome_of (eqb_ℤ k (q -ℤ f)) ≡ PaperFillSimulationOutcome.filled) ↔ (f +ℤ k ≡ q)
outcome_of_iff k q f = (
  λ h. remains k q f ((eqb_ℤ_iff k (q -ℤ f)).0 (ground arith)),
  λ h.
      rw
        ((eqb_ℤ_iff k (q -ℤ f)).1
          (subst (λ x. k ≡ x -ℤ f) h (eq_of_parts k (f +ℤ k -ℤ f) (omega int_laws))))
        refl,
)
  where
    remains : (k q f : ℤ) → k ≡ q -ℤ f → f +ℤ k ≡ q
    remains k q f e = rw e (eq_of_parts (f +ℤ (q -ℤ f)) q (omega int_laws))

abbrev pub reason_of : Bool → String
reason_of complete = if complete then "FILLED_WITH_EXPLICIT_LOCAL_ASSUMPTIONS" else "VOLUME_CAPPED"

module _ {F : Type 0} where
  -- The payload of ORDER_UNFILLED.
  abbrev pub no_fill_terms :
      PaperOrder F → RetainedPaperState F → LocalLimitFillAssumptions F → String → Dict F
  no_fill_terms order r a reason_code =
      put "cumulative_filled_quantity" (integer r.filled_quantity) (
        put "paper_only" (boolean true) (
          put "simulation" (object (event_payload a PaperFillSimulationOutcome.no_fill reason_code))
            (lifecycle_terms order.intent)))

  -- The quantity that the simulator fills: what remains, capped by the volume.
  abbrev pub simulated : PaperOrder F → RetainedPaperState F → LocalLimitFillAssumptions F → ℤ
  simulated order r a = min_ℤ (order.intent.quantity -ℤ r.filled_quantity) a.available_quantity

  abbrev pub simulated_complete :
      PaperOrder F → RetainedPaperState F → LocalLimitFillAssumptions F → Bool
  simulated_complete order r a =
      eqb_ℤ (simulated order r a) (order.intent.quantity -ℤ r.filled_quantity)

  abbrev pub simulation :
      PaperOrder F
      → PaperFillSimulationOutcome
      → String
      → LocalLimitFillAssumptions F
      → PaperFillSimulation F
  simulation order outcome reason_code a = record {
    order = order;
    outcome = outcome;
    reason_code = reason_code;
    assumptions = a;
  }

module _ {F T : Type 0} ⦃fl : Floats F⦄ (codec : Codec F T) where
  step_unfilled :
      (q : ℤ) (r : RetainedPaperState F) (at : Datetime) (payload : Dict F)
      → is_actionable r.status ≡ true
      → replay_step q r PaperEventType.order_unfilled at payload ≡ ok r
  unfolding replay_step risk_part evidence_part apply
  step_unfilled q r at payload live = ground arith

  module _ (order : PaperOrder F) (a : LocalLimitFillAssumptions F) (at : Datetime) where
    -- The simulator has a price and a volume to fill at.
    abbrev pub IsFillable : Type 0
    IsFillable =
        (a.session_open ≡ true)
        × (is_limit_eligible a order.intent.side ≡ true)
        × (eqb_ℤ a.available_quantity (pos 0) ≡ false)

    -- The call that fills, once the state `r` has been read.
    abbrev filling : RetainedPaperState F → Exec (ServiceState F T) (PaperOrder F)
    filling r =
        record_fill codec order (effective_fill_price a order.intent.side)
          (some (simulated order r a)) at
          (some (
            event_payload a (outcome_of (simulated_complete order r a))
              (reason_of (simulated_complete order r a))))

    -- What `simulate_limit_fill` has done after its read.
    abbrev Simulated :
        RetainedPaperState F → ServiceState F T → PaperFillSimulation F → ServiceState F T → Type 0
    Simulated r s made s' =
        ((¬ IsFillable)
          × ((reason : String) × (record_no_fill codec order r a reason at s ≡ (ok made, s'))))
        ⊎ (IsFillable
            × ((filled : PaperOrder F) × (filling r s ≡ (ok filled, s'))
                × (made
                    ≡ simulation filled (outcome_of (simulated_complete order r a))
                        (reason_of (simulated_complete order r a)) a)))

    filling_parts :
        (r : RetainedPaperState F) (complete : Bool) (m : Exec (ServiceState F T) (PaperOrder F))
        (s : ServiceState F T) {made : PaperFillSimulation F} {s' : ServiceState F T}
        → (m >>= λ filled. pure (simulation filled (outcome_of complete) (reason_of complete) a)) s
          ≡ (ok made, s')
        → (filled : PaperOrder F) × (m s ≡ (ok filled, s'))
          × (made ≡ simulation filled (outcome_of complete) (reason_of complete) a)
    filling_parts r complete m s {made} {s'} h =
        let (filled, s2, e, h1) = bind-ok m _ s h in
        let (made_as, same) =
          pure-ok {x = simulation filled (outcome_of complete) (reason_of complete) a} s2 s' h1 in
        (filled, subst (λ (x : ServiceState F T). m s ≡ (ok filled, x)) same e, sym made_as)

    -- `simulate_limit_fill` after its read.
    abbrev rest : RetainedPaperState F → Exec (ServiceState F T) (PaperFillSimulation F)
    rest r =
        let complete = simulated_complete order r a in
        raise_if (not (is_limit a.order_type))
          (value_error "local simulator accepts limit orders only")
        >> (if not a.session_open
            then record_no_fill codec order r a "SESSION_CLOSED" at
            else if not (is_limit_eligible a order.intent.side)
            then record_no_fill codec order r a "LIMIT_NOT_ELIGIBLE" at
            else if eqb_ℤ a.available_quantity (pos 0)
            then record_no_fill codec order r a "NO_AVAILABLE_SIMULATED_VOLUME" at
            else (filling r >>= λ filled.
                pure (simulation filled (outcome_of complete) (reason_of complete) a)))

    rest_parts :
        (r : RetainedPaperState F) (s : ServiceState F T) {made : PaperFillSimulation F}
        {s' : ServiceState F T}
        → rest r s ≡ (ok made, s')
        → Simulated r s made s'
    rest_parts r s h = elim (Bool-cases a.session_open) [
      | inr closed ↦ inl ((λ f. ground arith), ("SESSION_CLOSED", ground arith))
      | inl opened ↦ elim (Bool-cases (is_limit_eligible a order.intent.side)) [
        | inr ineligible ↦ inl ((λ f. ground arith), ("LIMIT_NOT_ELIGIBLE", ground arith))
        | inl eligible ↦ elim (Bool-cases (eqb_ℤ a.available_quantity (pos 0))) [
          | inl nothing ↦ inl ((λ f. ground arith), ("NO_AVAILABLE_SIMULATED_VOLUME", ground arith))
          | inr volume ↦ inr (
            (opened, eligible, volume),
            filling_parts r (simulated_complete order r a) (filling r) s (ground arith),
          )
        ]
      ]
    ]

    simulate_limit_fill_parts :
        (s : ServiceState F T) {made : PaperFillSimulation F} {s' : ServiceState F T}
        → simulate_limit_fill codec order a at s ≡ (ok made, s')
        → (r : RetainedPaperState F) × (s1 : ServiceState F T) × (require_actionable codec order s
            ≡ (ok r, s1))
          × (rest r s1 ≡ (ok made, s'))
    unfolding simulate_limit_fill
    simulate_limit_fill_parts s h = bind-ok (require_actionable codec order) rest s h

    module _ (law : RoundTrips codec) (positive : pos 0 ≤ℤ order.intent.quantity) where
      -- A simulation without a fill: one ORDER_UNFILLED event, and the order as it was.
      pub record Unfilled (s : ServiceState F T) (made : PaperFillSimulation F)
          (s' : ServiceState F T) : Type 0 where
        pub before : RetainedPaperState F
        pub reason : String
        pub shown :
            made
            ≡ simulation
                (with_retained order before before.status)
                PaperFillSimulationOutcome.no_fill
                reason
                a
        pub recorded :
            Recorded codec PaperEventType.order_unfilled order at
              (no_fill_terms order before a reason)
              s
              (with_retained order before before.status)
              s'

      -- A simulation with a fill at the effective price.
      pub record Filled (s : ServiceState F T) (made : PaperFillSimulation F)
          (s' : ServiceState F T) : Type 0 where
        pub quantity : ℤ
        pub within_volume : quantity ≤ℤ a.available_quantity
        pub evidence : Option (Dict F)
        pub fill :
            FillRecorded codec law order positive
              (effective_fill_price a order.intent.side)
              (some quantity)
              at
              evidence
              s
              made.order
              s'
        pub complete :
            (made.outcome ≡ PaperFillSimulationOutcome.filled)
            ↔ (made.order.filled_quantity ≡ order.intent.quantity)

      recorded_as :
          (r : RetainedPaperState F) (reason : String) (s : ServiceState F T)
          {made : PaperFillSimulation F} {s' : ServiceState F T}
          → record_no_fill codec order r a reason at s ≡ (ok made, s')
          → (append_event codec PaperEventType.order_unfilled order.intent at
                  (no_fill_terms order r a reason)
                >>= λ _. pure (
                    simulation
                      (with_retained order r r.status)
                      PaperFillSimulationOutcome.no_fill
                      reason
                      a))
              s
            ≡ (ok made, s')
      unfolding record_no_fill
      recorded_as r reason s h = h

      reduced_fill :
          (r : RetainedPaperState F) (s s1 : ServiceState F T) {made : PaperFillSimulation F}
          {s' : ServiceState F T} (filled : PaperOrder F)
          → filling r s1 ≡ (ok filled, s')
          → made
            ≡ simulation filled
                (outcome_of (simulated_complete order r a))
                (reason_of (simulated_complete order r a))
                a
          → s1 ≡ s
          → retained_state codec order.intent.quantity (events_for s.ledger order.intent.order_id)
            ≡ ok r
          → Filled s made s'
      reduced_fill r s s1 {made} {s'} filled wrote made_as same before =
          let k = simulated order r a in
          let evidence = some (
            event_payload a (outcome_of (simulated_complete order r a))
              (reason_of (simulated_complete order r a))) in
          let f =
            record_fill-FillRecorded codec law order positive
              (effective_fill_price a order.intent.side) (some k) at evidence s
              (subst (λ (x : ServiceState F T). filling r x ≡ (ok filled, s')) same wrote) in
          let quantity : filled.filled_quantity ≡ r.filled_quantity +ℤ k =
            ap (λ (o : PaperOrder F). o.filled_quantity) f.made
            ∙ ap (λ (x : RetainedPaperState F). x.filled_quantity +ℤ k)
                (ok-injective (sym f.read ∙ before)) in
          subst (λ (m : PaperFillSimulation F). Filled s m s') (sym made_as)
            (record {
              quantity = k;
              within_volume =
                  min_ℤ-right (order.intent.quantity -ℤ r.filled_quantity) a.available_quantity;
              evidence = evidence;
              fill = f;
              complete = rw quantity (outcome_of_iff k order.intent.quantity r.filled_quantity);
            })

      -- For an order of at least zero units and a codec that loads what it dumps: when
      -- `simulate_limit_fill` returns, either the simulation was not fillable (the session closed,
      -- the limit not eligible or no volume), one ORDER_UNFILLED event was written and the order
      -- comes back with the fills that it had; or it was fillable, and a fill at the effective price
      -- was recorded whose quantity is positive, keeps to the volume on offer and to what remains of
      -- the order, with the outcome FILLED exactly when the order is complete. In both cases a
      -- replay of the ledger shows the returned order.
      pub simulate_limit_fill-IsFillable :
          (s : ServiceState F T) {made : PaperFillSimulation F} {s' : ServiceState F T}
          → simulate_limit_fill codec order a at s ≡ (ok made, s')
          → ((¬ IsFillable) × Unfilled s made s') ⊎ (IsFillable × Filled s made s')
      simulate_limit_fill-IsFillable s {made} {s'} h =
          let (r, s1, e1, h1) = simulate_limit_fill_parts s h in
          let (same, before, actionable, status) = require_actionable-ok codec order s e1 in
          let c = retained_state-IsConsistent order.intent.quantity codec _ r positive before in
          let live : is_actionable r.status ≡ true = ap is_actionable status ∙ actionable in
          elim (rest_parts r s1 h1) [
            | inl (unfillable, (reason, recorded)) ↦
                let (_, s2, w, h1) =
                  bind-ok
                    (append_event codec PaperEventType.order_unfilled order.intent at
                      (no_fill_terms order r a reason))
                    _ s1 (recorded_as r reason s1 recorded) in
                let (made_as, same2) = pure-ok s2 s' h1 in
                inl (
                  unfillable,
                  record {
                    before = r;
                    reason = reason;
                    shown = sym made_as;
                    recorded =
                        finish codec law PaperEventType.order_unfilled order
                          (with_retained order r r.status) at (no_fill_terms order r a reason) s s1
                          s' r r same before
                          (subst
                            (λ (x : ServiceState F T).
                              append_event codec PaperEventType.order_unfilled order.intent at
                                (no_fill_terms order r a reason) s1
                              ≡ (ok tt, x))
                            same2 w)
                          (step_unfilled order.intent.quantity r at (no_fill_terms order r a reason)
                            live)
                          refl
                          (record {
                            status = refl;
                            filled_quantity = refl;
                            filled_at = refl;
                            fill_price = refl;
                            disposition = sym (c.undecided (actionable-live r.status live));
                          });
                  },
                )
            | inr (fillable, (filled, wrote, made_as)) ↦
                inr (fillable, reduced_fill r s s1 filled wrote made_as same before)
          ]
