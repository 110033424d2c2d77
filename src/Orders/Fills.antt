-- ===== src/Orders/Fills.antt =====
-- Recording a fill on an execution order.
use algo_manus.Prelude.{true, false, ◌≡◌, ◌↔◌, ◌≤◌, arith, refl, subst, ◌⊎◌, inl, inr, eq_iff}
use algo_manus.Prelude.Result.{ok}
use algo_manus.Prelude.Int.{
  ℤ, pos, ◌+ℤ◌, ◌-ℤ◌, ◌≤ℤ◌, +ℤ_parts, -ℤ_parts, ltb_ℤ, eq_of_parts, int_laws,
}
use algo_manus.Risk.Intent.{OrderSide, same_side}
use algo_manus.Orders.{
  OrderStatus, ExecutionOrder, Fill, execution_order, is_allowed, record_fill, remaining_quantity,
  status_after, excludes_fills,
}
use algo_manus.Orders.Validity.{IsValid, execution_order_iff}

-- The statuses in which an order can take a fill.
pub data IsOpen : OrderStatus → Type 0 where
  submitted : IsOpen OrderStatus.submitted
  acknowledged : IsOpen OrderStatus.acknowledged
  partially_filled : IsOpen OrderStatus.partially_filled

-- The comparison of sides decides their equality.
pub same_side_iff : (a b : OrderSide) → (same_side a b ≡ true) ↔ (a ≡ b)
same_side_iff OrderSide.buy OrderSide.buy = (λ _. refl, λ _. refl)
same_side_iff OrderSide.buy OrderSide.sell = (λ h. cc, λ e. cc)
same_side_iff OrderSide.sell OrderSide.buy = (λ h. cc, λ e. cc)
same_side_iff OrderSide.sell OrderSide.sell = (λ _. refl, λ _. refl)

open_iff :
    (s : OrderStatus)
    → (is_allowed s OrderStatus.filled ≡ true) × (is_allowed s OrderStatus.partially_filled ≡ true)
      ⊎ (is_allowed s OrderStatus.filled ≡ false)
        × (is_allowed s OrderStatus.partially_filled ≡ false)
unfolding is_allowed
open_iff OrderStatus.submitted = inl (refl, refl)
open_iff OrderStatus.acknowledged = inl (refl, refl)
open_iff OrderStatus.partially_filled = inl (refl, refl)
open_iff _ = inr (refl, refl)

allowed-IsOpen : (s : OrderStatus) → is_allowed s OrderStatus.filled ≡ true → IsOpen s
unfolding is_allowed
allowed-IsOpen OrderStatus.submitted h = IsOpen.submitted
allowed-IsOpen OrderStatus.acknowledged h = IsOpen.acknowledged
allowed-IsOpen OrderStatus.partially_filled h = IsOpen.partially_filled
allowed-IsOpen _ h = cc

IsOpen-allowed :
    {s : OrderStatus}
    → IsOpen s
    → (is_allowed s OrderStatus.filled ≡ true) × (is_allowed s OrderStatus.partially_filled ≡ true)
unfolding is_allowed
IsOpen-allowed IsOpen.submitted = (refl, refl)
IsOpen-allowed IsOpen.acknowledged = (refl, refl)
IsOpen-allowed IsOpen.partially_filled = (refl, refl)

module _ {F : Type 0} where
  -- The fill belongs to the order, fits in what remains of it, and is not earlier than it.
  pub record Fits (o : ExecutionOrder F) (fill : Fill F) : Type 0 where
    pub same_order : fill.order_id ≡ o.intent.order_id
    pub same_instrument : fill.instrument_id ≡ o.intent.instrument_id
    pub same_side : fill.side ≡ o.intent.side
    pub bounded : o.filled_quantity +ℤ fill.quantity ≤ℤ o.intent.quantity
    pub not_earlier : o.updated_at.instant ≤ fill.occurred_at.instant
    pub fillable : IsOpen o.status

  -- The order after a fill of `fill.quantity`.
  abbrev pub after_fill : ExecutionOrder F → Fill F → ExecutionOrder F
  after_fill o fill = record o {
    status = status_after o (o.filled_quantity +ℤ fill.quantity);
    updated_at = fill.occurred_at;
    filled_quantity = o.filled_quantity +ℤ fill.quantity;
  }

  excludes-filled : (o : ExecutionOrder F) (q : ℤ) → excludes_fills (status_after o q) ≡ false
  unfolding excludes_fills
  excludes-filled o q = ground arith

  -- A valid order stays valid under a fill of positive quantity that fits.
  after_fill-IsValid :
      (o : ExecutionOrder F) (fill : Fill F)
      → IsValid o
      → fill.occurred_at.aware ≡ true
      → ¬ (fill.quantity ≤ℤ pos 0)
      → Fits o fill
      → IsValid (after_fill o fill)
  after_fill-IsValid o fill v aware positive fits =
      let q = o.filled_quantity +ℤ fill.quantity in
      record {
        created_aware = v.created_aware;
        updated_aware = aware;
        ordered = omega (arith, v.ordered, fits.not_earlier);
        filled_lower = omega (int_laws, v.filled_lower);
        filled_upper = fits.bounded;
        complete = λ e. ground (arith, eq_of_parts q o.intent.quantity);
        partial_lower = λ e h. omega (int_laws, v.filled_lower);
        partial_upper = λ e h. ground (arith, fits.bounded);
        unfilled = λ e. cc (excludes-filled o q);
      }

  -- A fill of positive quantity is recorded on a valid order exactly when it belongs to the order,
  -- keeps to its remaining quantity, is not earlier than it, and the order is open; the order that
  -- comes back has that much more filled, is FILLED when nothing remains and PARTIALLY_FILLED
  -- otherwise, and is valid.
  pub record_fill_iff :
      (o : ExecutionOrder F) (fill : Fill F) (p : ExecutionOrder F)
      → IsValid o
      → fill.occurred_at.aware ≡ true
      → ¬ (fill.quantity ≤ℤ pos 0)
      → (record_fill o fill ≡ ok p) ↔ (Fits o fill × (after_fill o fill ≡ p) × IsValid p)
  unfolding record_fill remaining_quantity
  record_fill_iff o fill p v aware positive = (
    λ h.
        let room : ltb_ℤ (o.intent.quantity -ℤ o.filled_quantity) fill.quantity ≡ false =
          ground arith in
        let made : execution_order (after_fill o fill) ≡ ok p = ground arith in
        let (valid, same) = (execution_order_iff (after_fill o fill) p).0 made in
        (
          record {
            same_order = (eq_iff _ _).0 (ground arith);
            same_instrument = (eq_iff _ _).0 (ground arith);
            same_side = (same_side_iff _ _).0 (ground arith);
            bounded = ground (
              arith,
              room,
              -ℤ_parts o.intent.quantity o.filled_quantity,
              +ℤ_parts o.filled_quantity fill.quantity,
            );
            not_earlier = ground arith;
            fillable = allowed-IsOpen o.status (ground (arith, open_iff o.status));
          },
          same,
          subst IsValid same valid,
        ),
    λ (fits, same, _).
        let valid = after_fill-IsValid o fill v aware positive fits in
        let made : execution_order (after_fill o fill) ≡ ok p =
          (execution_order_iff (after_fill o fill) p).1 (valid, same) in
        let room : ltb_ℤ (o.intent.quantity -ℤ o.filled_quantity) fill.quantity ≡ false = ground (
          arith,
          fits.bounded,
          -ℤ_parts o.intent.quantity o.filled_quantity,
          +ℤ_parts o.filled_quantity fill.quantity,
        ) in
        let may = IsOpen-allowed fits.fillable in
        ground (
          arith,
          (eq_iff _ _).1 fits.same_order,
          (eq_iff _ _).1 fits.same_instrument,
          (same_side_iff _ _).1 fits.same_side,
          fits.not_earlier,
          may.0,
          may.1,
          room,
          made,
        ),
  )
