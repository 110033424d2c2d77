-- ===== src/PaperExecution/Consistency.antt =====
-- What `_retained_state` establishes of any event stream that it accepts.
use algo_manus.Prelude.{
  Bool, true, false, Option, none, some, List, [], ◌∷◌, ◌≡◌, refl, subst, arith, inl, inr,
}
use algo_manus.Prelude.Result.{ok, >>=-eq-ok, ok-injective, Result-cases}
use algo_manus.Prelude.Int.{ℤ, pos, ◌≤ℤ◌, +ℤ_parts}
use algo_manus.Prelude.Floats.{Floats}
use algo_manus.Prelude.Time.{Datetime}
use algo_manus.Prelude.Json.{Dict, Codec}
use algo_manus.Paper.{PaperOrderStatus, PaperEventType, PaperEvent, apply}
use algo_manus.PaperExecution.Retained.{
  RetainedPaperState, initial, risk_part, fill_with, fill_part, evidence_part, event_payload,
  replay_step, replay, retained_state,
}

-- The statuses in which an order has no fill.
abbrev pub precedes_fills : PaperOrderStatus → Bool
precedes_fills PaperOrderStatus.pending_risk = true
precedes_fills PaperOrderStatus.risk_approved = true
precedes_fills PaperOrderStatus.rejected = true
precedes_fills PaperOrderStatus.accepted = true
precedes_fills PaperOrderStatus.working = true
precedes_fills _ = false

-- The statuses in which an order has a fill.
abbrev pub has_fills : PaperOrderStatus → Bool
has_fills PaperOrderStatus.partially_filled = true
has_fills PaperOrderStatus.filled = true
has_fills _ = false

abbrev pub is_reconciled : PaperOrderStatus → Bool
is_reconciled PaperOrderStatus.reconciled = true
is_reconciled _ = false

module _ {F : Type 0} where
  -- The fills of a retained state fit the order and its status.
  pub record IsConsistent (order_quantity : ℤ) (r : RetainedPaperState F) : Type 0 where
    pub lower : pos 0 ≤ℤ r.filled_quantity
    pub upper : r.filled_quantity ≤ℤ order_quantity
    pub unfilled : precedes_fills r.status ≡ true → r.filled_quantity ≡ pos 0
    pub untimed : precedes_fills r.status ≡ true → r.filled_at ≡ none
    pub unpriced : precedes_fills r.status ≡ true → r.fill_price ≡ none
    pub started : has_fills r.status ≡ true → ¬ (r.filled_quantity ≤ℤ pos 0)
    pub undecided : is_reconciled r.status ≡ false → r.reconciliation_disposition ≡ none

module _ {F : Type 0} ⦃fl : Floats F⦄ (q : ℤ) where
  fill_with_facts :
      (r : RetainedPaperState F) (at : Datetime) (quantity cumulative : Option ℤ) (price : Option F)
      {r' : RetainedPaperState F}
      → fill_with q r at quantity cumulative price ≡ ok r'
      → (¬ (r'.filled_quantity ≤ℤ r.filled_quantity))
        × (r'.filled_quantity ≤ℤ q)
        × (r'.reconciliation_disposition ≡ r.reconciliation_disposition)
  unfolding fill_with
  fill_with_facts r at none cumulative price h = cc
  fill_with_facts r at (some k) cumulative price h =
      (λ le. ground (arith, +ℤ_parts r.filled_quantity k), ground arith, ground arith)

  fill_part_facts :
      (r : RetainedPaperState F) (event_type : PaperEventType) (at : Datetime) (payload : Dict F)
      {r' : RetainedPaperState F}
      → fill_part q r event_type at payload ≡ ok r'
      → (¬ (r'.filled_quantity ≤ℤ r.filled_quantity))
        × (r'.filled_quantity ≤ℤ q)
        × (r'.reconciliation_disposition ≡ r.reconciliation_disposition)
  unfolding fill_part
  fill_part_facts r event_type at payload h = fill_with_facts r at _ _ _ h

  replay_step-IsConsistent :
      (r : RetainedPaperState F) (event_type : PaperEventType) (at : Datetime) (payload : Dict F)
      {r' : RetainedPaperState F}
      → IsConsistent q r
      → replay_step q r event_type at payload ≡ ok r'
      → IsConsistent q r'
  unfolding replay_step risk_part evidence_part apply
  replay_step-IsConsistent r PaperEventType.risk_decision at payload c h = ground arith
  replay_step-IsConsistent r PaperEventType.order_filled at payload c h =
      elim (Result-cases (fill_part q r PaperEventType.order_filled at payload)) [
        | inl (r1, e) ↦
            let facts = fill_part_facts r PaperEventType.order_filled at payload e in ground arith
        | inr (failure, e) ↦ ground arith
      ]
  replay_step-IsConsistent r PaperEventType.order_partially_filled at payload c h =
      elim (Result-cases (fill_part q r PaperEventType.order_partially_filled at payload)) [
        | inl (r1, e) ↦
            let facts = fill_part_facts r PaperEventType.order_partially_filled at payload e in
            ground arith
        | inr (failure, e) ↦ ground arith
      ]
  replay_step-IsConsistent r _ at payload c h = ground arith

  module _ {T : Type 0} (codec : Codec F T) where
    replay-IsConsistent :
        (r : RetainedPaperState F) (events : List (PaperEvent T)) {r' : RetainedPaperState F}
        → IsConsistent q r
        → replay codec q r events ≡ ok r'
        → IsConsistent q r'
    unfolding replay
    replay-IsConsistent r [] c h = subst (IsConsistent q) (ok-injective h) c
    replay-IsConsistent r (event ∷ events) c h =
        let (payload, _, h1) = >>=-eq-ok (event_payload codec event) _ h in
        let (r1, e, h2) =
          >>=-eq-ok (replay_step q r event.event_type event.occurred_at payload) _ h1 in
        replay-IsConsistent r1 events
          (replay_step-IsConsistent r event.event_type event.occurred_at payload c e) h2

    -- Whatever events a ledger holds, a retained state that the service accepts has a filled
    -- quantity between zero and the order's, has no fill, fill time or price before the first fill
    -- status, has a fill in the fill statuses, and has a disposition only once it is reconciled.
    pub retained_state-IsConsistent :
        (events : List (PaperEvent T)) (r : RetainedPaperState F)
        → pos 0 ≤ℤ q
        → retained_state codec q events ≡ ok r
        → IsConsistent q r
    unfolding retained_state
    retained_state-IsConsistent events r positive h =
        replay-IsConsistent initial events
          (record {
            lower = omega arith;
            upper = positive;
            unfilled = λ _. refl;
            untimed = λ _. refl;
            unpriced = λ _. refl;
            started = λ e. cc;
            undecided = λ _. refl;
          })
          h
