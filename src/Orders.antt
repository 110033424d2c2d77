-- ===== src/Orders.antt =====
-- src/algo_manus/domain/execution.py: the provider-neutral order lifecycle.
pub mod Validity
pub mod Fills
pub mod Lifecycle
pub mod History
use algo_manus.Prelude.{
  ℕ, String, Bool, true, false, List, [], ◌∷◌, not, ◌&&◌, ◌||◌, any, is_blank, str_eq, ◌==◌, ◌+++◌,
  if◌then◌else◌,
}
use algo_manus.Prelude.Result.{
  Result, ok, err, value_error, invalid_transition, raise_if, ◌>>=◌, ◌>>◌,
}
use algo_manus.Prelude.Int.{ℤ, pos, ltb_ℤ, leb_ℤ, eqb_ℤ, ◌+ℤ◌, ◌-ℤ◌}
use algo_manus.Prelude.Floats.{Floats, zero_f, ◌≼◌}
use algo_manus.Prelude.Time.{Datetime, before}
use algo_manus.Risk.Intent.{OrderSide, OrderIntent, same_side}

pub data OrderStatus : Type 0 where
  created risk_rejected submitted acknowledged partially_filled filled cancelled rejected failed
        reconciled :
      OrderStatus

-- `OrderStatus.value`
unfoldable pub status_value : OrderStatus → String
status_value OrderStatus.created = "CREATED"
status_value OrderStatus.risk_rejected = "RISK_REJECTED"
status_value OrderStatus.submitted = "SUBMITTED"
status_value OrderStatus.acknowledged = "ACKNOWLEDGED"
status_value OrderStatus.partially_filled = "PARTIALLY_FILLED"
status_value OrderStatus.filled = "FILLED"
status_value OrderStatus.cancelled = "CANCELLED"
status_value OrderStatus.rejected = "REJECTED"
status_value OrderStatus.failed = "FAILED"
status_value OrderStatus.reconciled = "RECONCILED"

-- The position of a status in the enumeration, by which two are compared.
abbrev ordinal : OrderStatus → ℕ
ordinal OrderStatus.created = 0
ordinal OrderStatus.risk_rejected = 1
ordinal OrderStatus.submitted = 2
ordinal OrderStatus.acknowledged = 3
ordinal OrderStatus.partially_filled = 4
ordinal OrderStatus.filled = 5
ordinal OrderStatus.cancelled = 6
ordinal OrderStatus.rejected = 7
ordinal OrderStatus.failed = 8
ordinal OrderStatus.reconciled = 9

-- `status in statuses`
abbrev member : OrderStatus → List OrderStatus → Bool
member s statuses = any (λ t. ordinal s == ordinal t) statuses

-- `_ALLOWED_TRANSITIONS`
unfoldable pub allowed_transitions : OrderStatus → List OrderStatus
allowed_transitions OrderStatus.created = OrderStatus.risk_rejected ∷ OrderStatus.submitted ∷ []
allowed_transitions OrderStatus.risk_rejected = []
allowed_transitions OrderStatus.submitted =
    OrderStatus.acknowledged ∷ OrderStatus.partially_filled ∷ OrderStatus.filled
    ∷ OrderStatus.cancelled ∷ OrderStatus.rejected ∷ OrderStatus.failed ∷ []
allowed_transitions OrderStatus.acknowledged =
    OrderStatus.partially_filled ∷ OrderStatus.filled ∷ OrderStatus.cancelled ∷ OrderStatus.rejected
    ∷ OrderStatus.failed ∷ []
allowed_transitions OrderStatus.partially_filled =
    OrderStatus.partially_filled ∷ OrderStatus.filled ∷ OrderStatus.cancelled ∷ OrderStatus.failed
    ∷ []
allowed_transitions OrderStatus.filled = OrderStatus.reconciled ∷ []
allowed_transitions OrderStatus.cancelled = OrderStatus.reconciled ∷ []
allowed_transitions OrderStatus.rejected = OrderStatus.reconciled ∷ []
allowed_transitions OrderStatus.failed = OrderStatus.reconciled ∷ []
allowed_transitions OrderStatus.reconciled = []

-- `status in _ALLOWED_TRANSITIONS[current]`
unfoldable pub is_allowed : OrderStatus → OrderStatus → Bool
unfolding allowed_transitions
is_allowed current status = member status (allowed_transitions current)

-- The statuses that `__post_init__` lists as free of fills.
unfoldable pub excludes_fills : OrderStatus → Bool
excludes_fills status = member status (
    OrderStatus.created ∷ OrderStatus.risk_rejected ∷ OrderStatus.submitted
    ∷ OrderStatus.acknowledged ∷ OrderStatus.rejected ∷ OrderStatus.failed ∷ [])

abbrev pub is_filled : OrderStatus → Bool
is_filled OrderStatus.filled = true
is_filled _ = false

abbrev pub is_partially_filled : OrderStatus → Bool
is_partially_filled OrderStatus.partially_filled = true
is_partially_filled _ = false

pub record Fill (F : Type 0) : Type 0 where
  pub fill_id : String
  pub order_id : String
  pub instrument_id : String
  pub side : OrderSide
  pub quantity : ℤ
  pub price : F
  pub occurred_at : Datetime

pub record ExecutionOrder (F : Type 0) : Type 0 where
  pub intent : OrderIntent F
  pub status : OrderStatus
  pub created_at : Datetime
  pub updated_at : Datetime
  pub filled_quantity : ℤ

-- `_require_aware`
abbrev pub require_aware : Datetime → String → Result (Unit {0})
require_aware t field = raise_if (not t.aware) (value_error (field +++ " must be timezone-aware"))

module _ {F : Type 0} ⦃fl : Floats F⦄ where
  -- The constructor of `Fill` with its `__post_init__`.
  unfoldable pub new_fill : Fill F → Result (Fill F)
  new_fill f = do
    raise_if (is_blank f.fill_id || is_blank f.order_id || is_blank f.instrument_id)
        (value_error "fill, order and instrument identifiers are required")
    raise_if (leb_ℤ f.quantity (pos 0) || (f.price ≼ zero_f))
        (value_error "fill quantity and price must be positive")
    require_aware f.occurred_at "fill occurred_at"
    ok f

module _ {F : Type 0} where
  -- The constructor of `ExecutionOrder` with its `__post_init__`, which `replace` runs too.
  unfoldable pub execution_order : ExecutionOrder F → Result (ExecutionOrder F)
  unfolding excludes_fills
  execution_order o = do
    require_aware o.created_at "order created_at"
    require_aware o.updated_at "order updated_at"
    raise_if (before o.updated_at o.created_at)
        (value_error "order updated_at cannot predate created_at")
    raise_if (ltb_ℤ o.filled_quantity (pos 0) || ltb_ℤ o.intent.quantity o.filled_quantity)
        (value_error "filled_quantity must be within the order quantity")
    raise_if (is_filled o.status && not (eqb_ℤ o.filled_quantity o.intent.quantity))
        (value_error "filled order must have its complete quantity")
    raise_if
        (is_partially_filled o.status
          && not (ltb_ℤ (pos 0) o.filled_quantity && ltb_ℤ o.filled_quantity o.intent.quantity))
        (value_error "partially filled order needs a partial quantity")
    raise_if (excludes_fills o.status && not (eqb_ℤ o.filled_quantity (pos 0)))
        (value_error "this order state cannot contain fills")
    ok o

  -- `ExecutionOrder.create`
  unfoldable pub create : OrderIntent F → Datetime → Result (ExecutionOrder F)
  create intent created_at = execution_order (record {
    intent = intent;
    status = OrderStatus.created;
    created_at = created_at;
    updated_at = created_at;
    filled_quantity = pos 0;
  })

  unfoldable pub remaining_quantity : ExecutionOrder F → ℤ
  remaining_quantity o = o.intent.quantity -ℤ o.filled_quantity

  abbrev cannot_transition : OrderStatus → OrderStatus → Result (ExecutionOrder F)
  cannot_transition from to = err (
      invalid_transition
        ("cannot transition " +++ status_value from +++ " to " +++ status_value to))

  -- `ExecutionOrder.transition`
  unfoldable pub transition : ExecutionOrder F → OrderStatus → Datetime → Result (ExecutionOrder F)
  transition o status occurred_at = do
    require_aware occurred_at "transition occurred_at"
    raise_if (before occurred_at o.updated_at)
        (invalid_transition "order transition cannot predate current state")
    if is_allowed o.status status
        then execution_order (record o { status = status; updated_at = occurred_at })
        else cannot_transition o.status status

  -- `FILLED if next_quantity == self.intent.quantity else PARTIALLY_FILLED`
  abbrev pub status_after : ExecutionOrder F → ℤ → OrderStatus
  status_after o next_quantity =
      if eqb_ℤ next_quantity o.intent.quantity
      then OrderStatus.filled
      else OrderStatus.partially_filled

  -- `ExecutionOrder.record_fill`
  unfoldable pub record_fill : ExecutionOrder F → Fill F → Result (ExecutionOrder F)
  record_fill o fill = do
    raise_if
        (not (str_eq fill.order_id o.intent.order_id)
          || not (str_eq fill.instrument_id o.intent.instrument_id))
        (value_error "fill must belong to the same order and instrument")
    raise_if (not (same_side fill.side o.intent.side))
        (value_error "fill side must match order intent side")
    raise_if (ltb_ℤ (remaining_quantity o) fill.quantity)
        (value_error "fill quantity exceeds remaining order quantity")
    let next_quantity = o.filled_quantity +ℤ fill.quantity
    let next_status = status_after o next_quantity
    raise_if (before fill.occurred_at o.updated_at)
        (invalid_transition "fill cannot predate current order state")
    if is_allowed o.status next_status
        then execution_order (record o {
          status = next_status;
          updated_at = fill.occurred_at;
          filled_quantity = next_quantity;
        })
        else cannot_transition o.status next_status
