-- ===== src/Orders/Validity.antt =====
-- What the constructor of an execution order accepts.
use algo_manus.Prelude.{true, ◌≡◌, ◌↔◌, ◌≤◌, arith}
use algo_manus.Prelude.Result.{ok}
use algo_manus.Prelude.Int.{pos, ◌≤ℤ◌, eq_of_parts}
use algo_manus.Orders.{OrderStatus, ExecutionOrder, execution_order, excludes_fills}

module _ {F : Type 0} where
  -- The fills that an order of each status may hold.
  pub record IsValid (o : ExecutionOrder F) : Type 0 where
    pub created_aware : o.created_at.aware ≡ true
    pub updated_aware : o.updated_at.aware ≡ true
    pub ordered : o.created_at.instant ≤ o.updated_at.instant
    pub filled_lower : pos 0 ≤ℤ o.filled_quantity
    pub filled_upper : o.filled_quantity ≤ℤ o.intent.quantity
    pub complete : o.status ≡ OrderStatus.filled → o.filled_quantity ≡ o.intent.quantity
    pub partial_lower : o.status ≡ OrderStatus.partially_filled → ¬ (o.filled_quantity ≤ℤ pos 0)
    pub partial_upper :
        o.status ≡ OrderStatus.partially_filled → ¬ (o.intent.quantity ≤ℤ o.filled_quantity)
    pub unfilled : excludes_fills o.status ≡ true → o.filled_quantity ≡ pos 0

  -- The constructor accepts an order exactly when its times are aware and ordered and its filled
  -- quantity fits its status, and it returns the order as it is.
  pub execution_order_iff :
      (o p : ExecutionOrder F) → (execution_order o ≡ ok p) ↔ (IsValid o × (o ≡ p))
  unfolding execution_order
  execution_order_iff o p = (
    λ h. (
      record {
        created_aware = ground arith;
        updated_aware = ground arith;
        ordered = ground arith;
        filled_lower = ground arith;
        filled_upper = ground arith;
        complete = λ e. ground (arith, eq_of_parts o.filled_quantity o.intent.quantity);
        partial_lower = λ e. ground arith;
        partial_upper = λ e. ground arith;
        unfilled = λ e. ground (arith, eq_of_parts o.filled_quantity (pos 0));
      },
      ground arith,
    ),
    λ (v, e). ground arith,
  )
