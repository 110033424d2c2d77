-- ===== src/PaperProjection/Round.antt =====
-- One round of the loop in `PaperPortfolioProjector.replay`, and `_apply_fill`.
use algo_manus.Prelude.{
  String, Bool, true, false, Option, none, some, List, not, ◌&&◌, ◌||◌, if◌then◌else◌,
}
use algo_manus.Prelude.Int.{ℤ, pos, ltb_ℤ, eqb_ℤ, neg_ℤ, ◌+ℤ◌, ◌-ℤ◌}
use algo_manus.Prelude.Floats.{Floats, float, zero_f, ◌⊕◌, ◌⊖◌, ◌⊗◌, ◌⊘◌, ◌≼◌}
use algo_manus.Prelude.Time.{Datetime}
use algo_manus.Prelude.Json.{Dict, get, as_bool, as_int, as_text, as_float, is_null}
use algo_manus.Risk.Intent.{OrderSide, same_side}
use algo_manus.Paper.{PaperOrderStatus, PaperEventType, apply}
use algo_manus.PaperExecution.Retained.{parse_disposition}
use algo_manus.PaperProjection.State.{
  Position, ProjectedOrder, find, assign, found_or, new_position,
}
use algo_manus.PaperProjection.Evidence.{
  side_of, quantity_of, apply_order_terms, matching_optional_terms, valid_no_fill_evidence,
  has_text,
}

-- What a round does: the order of the event and the positions afterwards, whether the event was
-- valid, and, after a fill, the changes of the cash and of the realised result.
pub record Change (F : Type 0) : Type 0 where
  pub order : ProjectedOrder F
  pub valid : Bool
  pub positions : List (String × Position F)
  pub moved : Option (F × F)

module _ {F : Type 0} where
  abbrev pub refused : ProjectedOrder F → List (String × Position F) → Change F
  refused order positions = record {
    order = order;
    valid = false;
    positions = positions;
    moved = none;
  }

  abbrev pub taken : ProjectedOrder F → List (String × Position F) → Change F
  taken order positions = record {
    order = order;
    valid = true;
    positions = positions;
    moved = none;
  }

module _ {F : Type 0} where
  -- `cumulative`, where ORDER_FILLED without one means the whole order.
  abbrev pub cumulative_of : Bool → Dict F → Option ℤ → Option ℤ
  cumulative_of completes payload order_quantity =
      let value = get payload "cumulative_filled_quantity" in
      if is_null value && completes then order_quantity else as_int value

-- The events of `_apply_fill`.
abbrev pub is_fill : PaperEventType → Bool
is_fill PaperEventType.order_partially_filled = true
is_fill PaperEventType.order_filled = true
is_fill _ = false

-- The two tests of the cumulative quantity against the type of the event.
abbrev pub not_partial : Bool → ℤ → ℤ → Bool
not_partial completes cumulative order_quantity =
    not completes && not (ltb_ℤ (pos 0) cumulative && ltb_ℤ cumulative order_quantity)

abbrev pub not_complete : Bool → ℤ → ℤ → Bool
not_complete completes cumulative order_quantity =
    completes && not (eqb_ℤ cumulative order_quantity)

module _ {F : Type 0} ⦃fl : Floats F⦄ where
  -- The position of a purchase: the average entry price is weighted by the quantities.
  abbrev pub bought : Position F → ℤ → F → Position F
  bought p quantity fill_price =
      let new_quantity = p.quantity +ℤ quantity in
      record {
        quantity = new_quantity;
        average_entry_price =
            (float p.quantity ⊗ p.average_entry_price ⊕ float quantity ⊗ fill_price)
            ⊘ float new_quantity;
      }

  abbrev pub sold : Position F → ℤ → Position F
  sold p quantity =
      let left = p.quantity -ℤ quantity in
      record {
        quantity = left;
        average_entry_price = if eqb_ℤ left (pos 0) then zero_f else p.average_entry_price;
      }

  -- `_apply_fill` after its tests, with the position of the instrument.
  unfoldable pub settle :
      ProjectedOrder F → List (String × Position F) → Position F → OrderSide → ℤ → ℤ → F → Change F
  settle order positions position OrderSide.buy quantity cumulative fill_price = record {
    order = record order { filled_quantity = cumulative };
    valid = true;
    positions = assign order.instrument_id (bought position quantity fill_price) positions;
    moved = some (float (neg_ℤ quantity) ⊗ fill_price, zero_f);
  }
  settle order positions position OrderSide.sell quantity cumulative fill_price =
      if ltb_ℤ position.quantity quantity
      then refused (record order { filled_quantity = cumulative -ℤ quantity })
          (assign order.instrument_id position positions)
      else record {
        order = record order { filled_quantity = cumulative };
        valid = true;
        positions = assign order.instrument_id (sold position quantity) positions;
        moved = some (
          float quantity ⊗ fill_price,
          float quantity ⊗ (fill_price ⊖ position.average_entry_price),
        );
      }

  -- The facts of the event do not agree with the order.
  abbrev pub disagrees : ProjectedOrder F → OrderSide → ℤ → OrderSide → ℤ → ℤ → F → Bool
  disagrees order order_side order_quantity side quantity cumulative fill_price =
      not (same_side side order_side)
      || not (eqb_ℤ cumulative (order.filled_quantity +ℤ quantity))
      || ltb_ℤ order_quantity cumulative
      || (fill_price ≼ zero_f)

  -- The tests of `_apply_fill` on the facts of the event, where all of them are there.
  unfoldable pub check_fill :
      ProjectedOrder F
      → List (String × Position F)
      → Bool
      → OrderSide
      → ℤ
      → OrderSide
      → ℤ
      → ℤ
      → F
      → Change F
  check_fill order positions completes order_side order_quantity side quantity cumulative
        fill_price =
      if disagrees order order_side order_quantity side quantity cumulative fill_price
      then refused order positions
      else if not_partial completes cumulative order_quantity
      then refused order positions
      else if not_complete completes cumulative order_quantity
      then refused order positions
      else settle order positions (found_or new_position (find order.instrument_id positions)) side
          quantity cumulative fill_price

  -- The tests for what is missing come first.
  unfoldable pub fill_facts :
      ProjectedOrder F
      → List (String × Position F)
      → Bool
      → Option OrderSide
      → Option ℤ
      → Option OrderSide
      → Option ℤ
      → Option ℤ
      → Option F
      → Change F
  fill_facts order positions completes (some os) (some oq) (some side) (some q) (some c)
        (some price) =
      check_fill order positions completes os oq side q c price
  fill_facts order positions completes os oq side q c price = refused order positions

  -- `_apply_fill`; `completes` says that the event is ORDER_FILLED. The instrument of the event is
  -- that of the order.
  unfoldable pub apply_fill :
      ProjectedOrder F → List (String × Position F) → Bool → Dict F → Change F
  apply_fill order positions completes payload =
      fill_facts order positions completes order.side order.quantity (side_of payload)
        (quantity_of payload) (cumulative_of completes payload order.quantity)
        (as_float (get payload "fill_price"))

  -- A fill that was applied sets the status, the time and the price of the order.
  unfoldable pub stamp : PaperOrderStatus → Datetime → Dict F → Change F → Change F
  stamp next_status at payload change =
      if change.valid
      then record change {
        order = record change.order {
          status = next_status;
          filled_at = some at;
          fill_price = as_float (get payload "fill_price");
        };
      }
      else change

  -- The branch of the event's type, for an event that is in sequence.
  unfoldable pub by_type :
      ProjectedOrder F
      → List (String × Position F)
      → PaperOrderStatus
      → PaperEventType
      → Datetime
      → Dict F
      → Change F
  by_type order positions next PaperEventType.order_proposed at payload =
      elim (apply_order_terms order payload) [
        | none ↦ refused order positions
        | some o ↦ taken (record o { status = next }) positions
      ]
  by_type order positions next PaperEventType.risk_decision at payload =
      taken (record order { status = next }) positions
  by_type order positions next PaperEventType.order_accepted at payload =
      elim (apply_order_terms order payload) [
        | none ↦ refused order positions
        | some o ↦ taken (record o { status = next; submitted_at = some at }) positions
      ]
  by_type order positions next PaperEventType.order_submitted at payload =
      elim (apply_order_terms order payload) [
        | none ↦ refused order positions
        | some o ↦ taken (record o { status = next; submitted_at = some at }) positions
      ]
  by_type order positions next PaperEventType.order_working at payload =
      if matching_optional_terms order payload
      then taken (record order { status = next }) positions
      else refused order positions
  by_type order positions next PaperEventType.order_unfilled at payload =
      if matching_optional_terms order payload && valid_no_fill_evidence payload
      then taken (record order { status = next }) positions
      else refused order positions
  by_type order positions next PaperEventType.order_rejected at payload =
      if matching_optional_terms order payload
      then taken (record order { status = next }) positions
      else refused order positions
  by_type order positions next PaperEventType.order_cancelled at payload =
      if matching_optional_terms order payload
      then taken (record order { status = next }) positions
      else refused order positions
  by_type order positions next PaperEventType.order_partially_filled at payload =
      stamp next at payload (apply_fill order positions false payload)
  by_type order positions next PaperEventType.order_filled at payload =
      stamp next at payload (apply_fill order positions true payload)
  by_type order positions next PaperEventType.reconciliation_recorded at payload =
      elim (parse_disposition (as_text (get payload "disposition"))) [
        | none ↦ refused order positions
        | some disposition ↦
            if has_text (get payload "reason")
            then taken
                (record order { status = next; reconciliation_disposition = some disposition })
                positions
            else refused order positions
      ]

  -- The order after the risk part of the round, and `risk_allowed`; `none` where the evidence is
  -- malformed or missing.
  unfoldable pub risk_part :
      ProjectedOrder F → PaperEventType → Dict F → Option (ProjectedOrder F × Option Bool)
  risk_part order PaperEventType.risk_decision payload = elim (as_bool (get payload "allowed")) [
    | none ↦ none
    | some allowed ↦ some (record order { risk_seen = true }, some allowed)
  ]
  risk_part order PaperEventType.order_rejected payload =
      if order.risk_seen then some (order, none) else none
  risk_part order _ payload = some (order, none)

  -- The round for an order and an event of its instrument, with the payload read.
  unfoldable pub project :
      ProjectedOrder F → List (String × Position F) → PaperEventType → Datetime → Dict F → Change F
  project order positions event_type at payload = elim (risk_part order event_type payload) [
    | none ↦ refused order positions
    | some (seen, risk_allowed) ↦ elim (apply seen.status event_type risk_allowed) [
      | none ↦ refused seen positions
      | some next_status ↦ by_type seen positions next_status event_type at payload
    ]
  ]
