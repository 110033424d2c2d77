-- ===== src/PaperProjection/Evidence.antt =====
-- How `PaperPortfolioProjector` reads the payload of an event, and holds it to the terms of the
-- order: `_payload`, `_side`, `_quantity`, `_apply_order_terms`, `_matching_optional_terms` and
-- `_valid_no_fill_evidence`.
use algo_manus.Prelude.{
  String, Bool, false, Option, none, some, not, ◌&&◌, ◌||◌, str_eq, is_blank, if◌then◌else◌,
}
use algo_manus.Prelude.Int.{ℤ, pos, leb_ℤ, eqb_ℤ}
use algo_manus.Prelude.Result.{Result, ok, err, attribute_error}
use algo_manus.Prelude.Json.{Json, Dict, Codec, get, as_bool, as_int, as_text, as_object}
use algo_manus.Risk.Intent.{OrderSide, same_side}
use algo_manus.Paper.{PaperEvent}
use algo_manus.PaperProjection.State.{ProjectedOrder}

module _ {F T : Type 0} where
  -- `_payload`: a text that is no JSON, or has no object as its payload, gives no payload. A JSON
  -- value that is no object has no `get`, and the exception is not caught.
  unfoldable pub payload_of : Codec F T → PaperEvent T → Result (Option (Dict F))
  payload_of codec event = elim (codec.loads event.payload) [
    | none ↦ ok none
    | some j ↦ elim (as_object j) [
      | none ↦ err (attribute_error "the loaded JSON value has no attribute 'get'")
      | some canonical ↦ ok (as_object (get canonical "payload"))
    ]
  ]

-- `OrderSide(value)`; `none` for the `ValueError`.
unfoldable pub parse_side : String → Option OrderSide
parse_side value =
    if str_eq value "BUY"
    then some OrderSide.buy
    else if str_eq value "SELL"
    then some OrderSide.sell
    else none

-- `value if value > 0 else None`
abbrev pub positive : Option ℤ → Option ℤ
positive none = none
positive (some n) = if leb_ℤ n (pos 0) then none else some n

-- `known is not None and known is not side`
abbrev pub other_side : Option OrderSide → OrderSide → Bool
other_side none side = false
other_side (some known) side = not (same_side known side)

-- `known is not None and known != quantity`
abbrev pub other_quantity : Option ℤ → ℤ → Bool
other_quantity none quantity = false
other_quantity (some known) quantity = not (eqb_ℤ known quantity)

module _ {F : Type 0} where
  -- `_side`
  unfoldable pub side_of : Dict F → Option OrderSide
  side_of payload = elim (as_text (get payload "side")) [
    | none ↦ none
    | some value ↦ parse_side value
  ]

  -- `_quantity`
  unfoldable pub quantity_of : Dict F → Option ℤ
  quantity_of payload = positive (as_int (get payload "quantity"))

  -- The tests of `_apply_order_terms` on the terms that it has read.
  unfoldable pub with_terms :
      ProjectedOrder F → Option OrderSide → Option ℤ → Option (ProjectedOrder F)
  with_terms order none quantity = none
  with_terms order (some side) none = none
  with_terms order (some side) (some quantity) =
      if other_side order.side side || other_quantity order.quantity quantity
      then none
      else some (record order { side = some side; quantity = some quantity })

  -- `_apply_order_terms`; `none` for `False`, which comes before any change.
  unfoldable pub apply_order_terms : ProjectedOrder F → Dict F → Option (ProjectedOrder F)
  apply_order_terms order payload = with_terms order (side_of payload) (quantity_of payload)

  -- `_matching_optional_terms`
  unfoldable pub matching_optional_terms : ProjectedOrder F → Dict F → Bool
  matching_optional_terms order payload =
      not (elim (side_of payload) [ none ↦ false | some side ↦ other_side order.side side ])
      && not (elim (quantity_of payload) [
        | none ↦ false
        | some quantity ↦ other_quantity order.quantity quantity
      ])

  -- `value == expected` for a text `expected`
  abbrev is_text : Json F → String → Bool
  is_text value expected = elim (as_text value) [ none ↦ false | some s ↦ str_eq s expected ]

  -- `isinstance(value, str) and value.strip()`
  abbrev pub has_text : Json F → Bool
  has_text value = elim (as_text value) [ none ↦ false | some s ↦ not (is_blank s) ]

  -- `_valid_no_fill_evidence`
  unfoldable pub valid_no_fill_evidence : Dict F → Bool
  valid_no_fill_evidence payload = elim (as_object (get payload "simulation")) [
    | none ↦ false
    | some simulation ↦
        is_text (get simulation "outcome") "NO_FILL"
        && is_text (get simulation "order_type") "LIMIT"
        && has_text (get simulation "reason_code")
        && elim (as_bool (get simulation "local_only")) [ none ↦ false | some b ↦ b ]
  ]
