-- ===== src/Orders/Lifecycle.antt =====
-- The moves of an execution order: transitions, fills, and every order they reach.
use algo_manus.Prelude.{true, ◌≡◌, ◌≢◌, ◌≤◌, arith, refl, subst, sym, ap, ◌∙◌}
use algo_manus.Prelude.Result.{ok}
use algo_manus.Prelude.Int.{pos, ◌≤ℤ◌}
use algo_manus.Prelude.Time.{Datetime}
use algo_manus.Risk.Intent.{OrderIntent}
use algo_manus.Orders.{
  OrderStatus, ExecutionOrder, execution_order, is_allowed, transition, excludes_fills,
}
use algo_manus.Orders.Validity.{IsValid, execution_order_iff}

module _ {F : Type 0} where
  -- What a successful transition of `o` to `status` at time `at` returns.
  pub record Moved (o : ExecutionOrder F) (target : OrderStatus) (at : Datetime)
      (p : ExecutionOrder F) : Type 0 where
    pub valid : IsValid p
    pub allowed : is_allowed o.status target ≡ true
    pub same_intent : p.intent ≡ o.intent
    pub same_fills : p.filled_quantity ≡ o.filled_quantity
    pub reached : p.status ≡ target
    pub stamped : p.updated_at ≡ at
    pub later : o.updated_at.instant ≤ p.updated_at.instant

  -- A transition that succeeds follows the table of allowed moves, does not go back in time, keeps
  -- the intent and the filled quantity, and returns a valid order in the requested status.
  pub transition-Moved :
      (o : ExecutionOrder F) (status : OrderStatus) (at : Datetime) {p : ExecutionOrder F}
      → transition o status at ≡ ok p
      → Moved o status at p
  unfolding transition
  transition-Moved o status at {p} h =
      let q : ExecutionOrder F = record o { status = status; updated_at = at } in
      let made : execution_order q ≡ ok p = ground arith in
      let (valid, same) = (execution_order_iff q p).0 made in
      subst (Moved o status at) same (record {
        valid = valid;
        allowed = ground arith;
        same_intent = refl;
        same_fills = refl;
        reached = refl;
        stamped = refl;
        later = ground arith;
      })

  -- Only a fill completes an order: no transition takes a valid order to FILLED.
  pub transition-filled_refused :
      (o : ExecutionOrder F) (at : Datetime) (p : ExecutionOrder F)
      → IsValid o
      → ¬ (o.intent.quantity ≤ℤ pos 0)
      → transition o OrderStatus.filled at ≢ ok p
  unfolding is_allowed excludes_fills
  transition-filled_refused o at p v positive h =
      let m = transition-Moved o OrderStatus.filled at h in
      let full : p.filled_quantity ≡ p.intent.quantity = m.valid.complete m.reached in
      let kept : o.filled_quantity ≡ o.intent.quantity =
        sym m.same_fills ∙ full ∙ ap (λ (i : OrderIntent F). i.quantity) m.same_intent in
      ground (arith, m.allowed, kept, v.partial_upper)

  -- A valid order that is partially filled cannot be moved to FAILED, though the table of allowed
  -- transitions lists that move: the constructor refuses a failed order that has fills.
  pub partially_filled-failed_refused :
      (o : ExecutionOrder F) (at : Datetime) (p : ExecutionOrder F)
      → IsValid o
      → o.status ≡ OrderStatus.partially_filled
      → (is_allowed o.status OrderStatus.failed ≡ true)
        × (transition o OrderStatus.failed at ≢ ok p)
  unfolding is_allowed excludes_fills
  partially_filled-failed_refused o at p v e = (
    ground arith,
    λ h.
        let m = transition-Moved o OrderStatus.failed at h in
        let empty : p.filled_quantity ≡ pos 0 = m.valid.unfilled (ap excludes_fills m.reached) in
        let kept : o.filled_quantity ≡ pos 0 = sym m.same_fills ∙ empty in
        ground (arith, kept, v.partial_lower e),
  )
