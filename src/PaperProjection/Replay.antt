-- ===== src/PaperProjection/Replay.antt =====
-- `PaperPortfolioProjector.replay`: the loop over the events, and the projection of its result;
-- and `PaperOperationsReadService.portfolio`.
use mathlib.Core.Option
use algo_manus.Prelude.{
  String, Bool, true, false, Option, none, some, List, [], ◌∷◌, map, keep, not, str_eq,
  sorted_items, if◌then◌else◌,
}
use algo_manus.Prelude.Int.{ℤ, pos, eqb_ℤ, ◌+ℤ◌, ◌-ℤ◌}
use algo_manus.Prelude.Result.{Result, ok, value_error, raise_if, ◌>>=◌, ◌>>◌}
use algo_manus.Prelude.Floats.{Floats, zero_f, ◌⊕◌, ◌≺◌}
use algo_manus.Prelude.Json.{Dict, Codec}
use algo_manus.Paper.{PaperOrderStatus, PaperEvent}
use algo_manus.PaperLedger
use algo_manus.PaperLedger.{PaperLedger}
use algo_manus.PaperProjection.State.{
  Position, ProjectedOrder, Portfolio, PositionProjection, OrderProjection, PortfolioProjection,
  find, assign, found_or, new_order, invalid,
}
use algo_manus.PaperProjection.Evidence.{payload_of}
use algo_manus.PaperProjection.Round.{Change, refused, project}

-- `status in accepted_statuses`
abbrev pub counts : PaperOrderStatus → Bool
counts PaperOrderStatus.pending_risk = false
counts PaperOrderStatus.risk_approved = false
counts PaperOrderStatus.rejected = false
counts _ = true

-- `sum(order.status in accepted_statuses for order in orders.values())`
abbrev pub session_orders : {F : Type 0} → List (String × ProjectedOrder F) → ℤ
session_orders [] = pos 0
session_orders ((_, order) ∷ orders) =
    if counts order.status then pos 1 +ℤ session_orders orders else session_orders orders

module _ {F : Type 0} where
  abbrev pub position_projection : String × Position F → PositionProjection F
  position_projection (instrument_id, p) = record {
    instrument_id = instrument_id;
    quantity = p.quantity;
    average_entry_price = p.average_entry_price;
  }

  abbrev pub order_projection : String × ProjectedOrder F → OrderProjection F
  order_projection (order_id, o) = record {
    order_id = order_id;
    instrument_id = o.instrument_id;
    side = o.side;
    quantity = o.quantity;
    status = o.status;
    submitted_at = o.submitted_at;
    filled_at = o.filled_at;
    fill_price = o.fill_price;
    filled_quantity = o.filled_quantity;
    remaining_quantity = Option.map (λ (q : ℤ). q -ℤ o.filled_quantity) o.quantity;
    reconciliation_disposition = o.reconciliation_disposition;
  }

  -- What `replay` returns, from the variables of its loop.
  unfoldable pub projection : F → Portfolio F → PortfolioProjection F
  projection starting_cash s = record {
    starting_cash = starting_cash;
    cash = s.cash;
    realized_pnl = s.realized_pnl;
    positions = map position_projection (
        keep (λ (item : String × Position F). not (eqb_ℤ item.1.quantity (pos 0)))
          (sorted_items s.positions));
    orders = map order_projection (sorted_items s.orders);
    session_order_count = session_orders s.orders;
    unprojectable_event_ids = s.unprojectable;
  }

module _ {F : Type 0} ⦃fl : Floats F⦄ where
  -- The variables before the first event.
  abbrev pub initial : F → Portfolio F
  initial starting_cash = record {
    cash = starting_cash;
    realized_pnl = zero_f;
    positions = [];
    orders = [];
    unprojectable = [];
  }

  abbrev pub cash_after : F → Option (F × F) → F
  cash_after cash none = cash
  cash_after cash (some (cash_delta, _)) = cash ⊕ cash_delta

  abbrev pub pnl_after : F → Option (F × F) → F
  pnl_after pnl none = pnl
  pnl_after pnl (some (_, pnl_delta)) = pnl ⊕ pnl_delta

module _ {F T : Type 0} ⦃fl : Floats F⦄ where
  -- `orders.setdefault(event.order_id, _MutableOrder(instrument_id=event.instrument_id))`
  abbrev pub order_of : Portfolio F → PaperEvent T → ProjectedOrder F
  order_of s event = found_or (new_order event.instrument_id) (find event.order_id s.orders)

  -- The variables after a round.
  abbrev pub settle_round : Portfolio F → PaperEvent T → Change F → Portfolio F
  settle_round s event change = record {
    cash = cash_after s.cash change.moved;
    realized_pnl = pnl_after s.realized_pnl change.moved;
    positions = change.positions;
    orders = assign event.order_id change.order s.orders;
    unprojectable =
        if change.valid then s.unprojectable else invalid event.event_id s.unprojectable;
  }

  -- What the round does for the order of the event: an event that names another instrument than
  -- the order is refused.
  abbrev pub change_of : Portfolio F → PaperEvent T → ProjectedOrder F → Dict F → Change F
  change_of s event order payload =
      if not (str_eq order.instrument_id event.instrument_id)
      then refused order s.positions
      else project order s.positions event.event_type event.occurred_at payload

  -- One round of the loop, with the payload read.
  unfoldable pub round : Portfolio F → PaperEvent T → Option (Dict F) → Portfolio F
  round s event none = record s { unprojectable = invalid event.event_id s.unprojectable }
  round s event (some payload) = settle_round s event (change_of s event (order_of s event) payload)

  -- The loop.
  unfoldable pub replay_events :
      Codec F T → Portfolio F → List (PaperEvent T) → Result (Portfolio F)
  replay_events c s [] = ok s
  replay_events c s (event ∷ events) = do
    payload ← payload_of c event
    replay_events c (round s event payload) events

  -- `replay`
  unfoldable pub replay : Codec F T → List (PaperEvent T) → F → Result (PortfolioProjection F)
  replay c events starting_cash = do
    raise_if (starting_cash ≺ zero_f) (value_error "starting_cash cannot be negative")
    s ← replay_events c (initial starting_cash) events
    ok (projection starting_cash s)

  -- `PaperOperationsReadService.portfolio`
  unfoldable pub portfolio : Codec F T → PaperLedger T → F → ℤ → Result (PortfolioProjection F)
  portfolio c ledger starting_cash limit = do
    events ← PaperLedger.events ledger limit
    replay c events starting_cash
