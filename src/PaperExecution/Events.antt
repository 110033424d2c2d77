-- ===== src/PaperExecution/Events.antt =====
-- The state of `PaperExecutionService`, and how its methods read and append events.
use algo_manus.Prelude.{String, Bool, true, false, Option, none, some, List, [], ◌∷◌, not, ◌+++◌}
use algo_manus.Prelude.Int.{pos}
use algo_manus.Prelude.Result.{Result, ok, err, value_error}
use algo_manus.Prelude.Exec.{Exec, pure, raise_if, ◌>>=◌, ◌>>◌}
use algo_manus.Prelude.Floats.{Floats}
use algo_manus.Prelude.Time.{Datetime}
use algo_manus.Prelude.Json.{Json, Dict, Codec, integer, number, text, object, empty, put}
use algo_manus.Risk.Intent.{OrderIntent, side_value}
use algo_manus.Paper.{
  PaperOrderStatus, PaperEventType, PaperOrder, PaperEvent, event_type_value, same_status,
}
use algo_manus.PaperLedger
use algo_manus.PaperLedger.{PaperLedger, events_for, order_ids}
use algo_manus.EventBus.{LocalEventBus, LocalEventType, create_event, publish}
use algo_manus.PaperExecution.Retained.{RetainedPaperState, retained_state}

pub record ServiceState (F T : Type 0) : Type 0 where
  pub ledger : PaperLedger T
  pub event_bus : Option (LocalEventBus F)

abbrev pub Action : Type 0 → Type 0 → Type 0 → Type 0
Action F T A = Exec (ServiceState F T) A

abbrev pub is_actionable : PaperOrderStatus → Bool
is_actionable PaperOrderStatus.accepted = true
is_actionable PaperOrderStatus.working = true
is_actionable PaperOrderStatus.partially_filled = true
is_actionable _ = false

abbrev pub is_terminal : PaperOrderStatus → Bool
is_terminal PaperOrderStatus.rejected = true
is_terminal PaperOrderStatus.filled = true
is_terminal PaperOrderStatus.cancelled = true
is_terminal _ = false

module _ {F : Type 0} where
  -- `_lifecycle_terms`
  abbrev pub lifecycle_terms : OrderIntent F → Dict F
  lifecycle_terms intent = put "side" (text (side_value intent.side)) (
      put "quantity" (integer intent.quantity)
        (put "reference_price" (number intent.reference_price) empty))

  abbrev pub paper_order : OrderIntent F → PaperOrderStatus → Datetime → PaperOrder F
  paper_order intent status submitted_at = record {
    intent = intent;
    status = status;
    submitted_at = submitted_at;
    filled_at = none;
    fill_price = none;
    filled_quantity = pos 0;
    reconciliation_disposition = none;
  }

  -- `order` with the retained status and fills: the shape of every order that a method returns
  -- after it has read the retained state.
  abbrev pub with_retained : PaperOrder F → RetainedPaperState F → PaperOrderStatus → PaperOrder F
  with_retained order retained status = record {
    intent = order.intent;
    status = status;
    submitted_at = order.submitted_at;
    filled_at = retained.filled_at;
    fill_price = retained.fill_price;
    filled_quantity = retained.filled_quantity;
    reconciliation_disposition = none;
  }

-- The bus attributes of a retained paper event.
abbrev bus_attributes : {F T : Type 0} → PaperEvent T → List (String × Json F)
bus_attributes event =
    ("source_evidence_id", text event.event_id)
    ∷ ("paper_event_type", text (event_type_value event.event_type))
    ∷ ("instrument_id", text event.instrument_id)
    ∷ []

module _ {F T : Type 0} ⦃fl : Floats F⦄ (codec : Codec F T) where
  -- The event that `_append_event` builds.
  unfoldable pub paper_event : PaperEventType → OrderIntent F → Datetime → Dict F → PaperEvent T
  paper_event event_type intent occurred_at payload =
      let canonical = codec.dumps (
        object (
          put "type" (text (event_type_value event_type)) (
            put "order" (text intent.order_id) (
              put "time" (text (codec.isoformat occurred_at))
                (put "payload" (object payload) empty))))) in
      record {
        event_id = "PE-" +++ codec.digest canonical;
        event_type = event_type;
        occurred_at = occurred_at;
        order_id = intent.order_id;
        instrument_id = intent.instrument_id;
        payload = canonical;
      }

  -- The publication that follows the write of `event` to the ledger.
  unfoldable pub announce :
      PaperEvent T → Option (LocalEventBus F) → Result (Option (LocalEventBus F))
  announce event none = ok none
  announce event (some bus) =
      elim (create_event codec LocalEventType.paper_ledger_event_retained event.occurred_at
        event.order_id "algo_manus.application.paper_execution.PaperExecutionService"
        (bus_attributes event)) [
          | err e ↦ err e
          | ok local_event ↦ ok (some (publish bus local_event).1)
        ]

  -- `_append_event`: first the ledger, then the bus.
  unfoldable pub append_event :
      PaperEventType → OrderIntent F → Datetime → Dict F → Action F T (Unit {0})
  append_event event_type intent occurred_at payload s =
      let event = paper_event event_type intent occurred_at payload in
      elim (PaperLedger.append s.ledger event) [
        | err e ↦ (err e, s)
        | ok ledger ↦ elim (announce event s.event_bus) [
          | err e ↦ (err e, record s { ledger = ledger })
          | ok bus ↦ (ok tt, record { ledger = ledger; event_bus = bus })
        ]
      ]

  -- `_retained_state`
  unfoldable pub read_retained : PaperOrder F → Action F T (RetainedPaperState F)
  read_retained order s =
      (retained_state codec order.intent.quantity (events_for s.ledger order.intent.order_id), s)

  -- `_require_actionable`
  unfoldable pub require_actionable : PaperOrder F → Action F T (RetainedPaperState F)
  unfolding read_retained
  require_actionable order = do
    raise_if (not (is_actionable order.status))
        (value_error "paper order is not currently actionable; not currently submitted")
    retained ← read_retained order
    raise_if (not (same_status retained.status order.status)) (
        value_error
          "paper order is not currently actionable; not currently submitted because retained local lifecycle differs")
    pure retained
