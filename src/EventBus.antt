-- ===== src/EventBus.antt =====
-- src/algo_manus/application/local_event_bus.py: the bounded in-process event bus.
pub mod Retention
pub mod Publication
use algo_manus.Prelude.{
  ℕ, zero, suc, ◌+◌, ◌-◌, ◌*◌, String, Bool, true, false, Option, none, some, List, [], ◌∷◌, ◌++◌,
  map, not, ◌&&◌, ◌||◌, any, keep, is_empty, is_blank, strip, str_eq, contains, leb, drop, length,
  ◌+++◌, if◌then◌else◌,
}
use algo_manus.Prelude.Int.{ℤ, pos, pos_part, leb_ℤ, ◌*ℤ◌}
use algo_manus.Prelude.Result.{Result, ok, value_error, raise_if, ◌>>=◌, ◌>>◌}
use algo_manus.Prelude.Time.{Datetime}
use algo_manus.Prelude.Json.{
  Json, Dict, Codec, absent, null, boolean, integer, number, text, array, object, empty, put,
}
use algo_manus.Vocabulary.{is_nil}

pub data LocalEventType : Type 0 where
  research_batch_retained paper_ledger_event_retained : LocalEventType

unfoldable pub local_event_type_value : LocalEventType → String
local_event_type_value LocalEventType.research_batch_retained = "RESEARCH_BATCH_RETAINED"
local_event_type_value LocalEventType.paper_ledger_event_retained = "PAPER_LEDGER_EVENT_RETAINED"

pub data LocalEventDeliveryStatus : Type 0 where
  delivered failed : LocalEventDeliveryStatus

-- The attributes are a dict, in the order of its items.
pub record LocalApplicationEvent (F : Type 0) : Type 0 where
  pub event_id : String
  pub event_type : LocalEventType
  pub occurred_at : Datetime
  pub correlation_id : String
  pub producer : String
  pub attributes : List (String × Json F)

pub record LocalEventDelivery : Type 0 where
  pub event_id : String
  pub subscriber_name : String
  pub status : LocalEventDeliveryStatus
  pub failure_type : Option String

pub record LocalEventPublicationResult (F : Type 0) : Type 0 where
  pub event : LocalApplicationEvent F
  pub accepted : Bool
  pub duplicate : Bool
  pub deliveries : List LocalEventDelivery

-- A subscriber returns the type name of the exception that it raises on an event, if any. What it
-- does outside the bus is not part of the model.
abbrev pub LocalEventSubscriber : Type 0 → Type 0
LocalEventSubscriber F = LocalApplicationEvent F → Option String

-- The bus: two bounded deques, oldest first, and the subscribers in the order of subscription.
pub record LocalEventBus (F : Type 0) : Type 0 where
  pub events : List (LocalApplicationEvent F)
  pub deliveries : List LocalEventDelivery
  pub subscribers : List (String × LocalEventSubscriber F)
  pub max_events : ℕ
  pub max_deliveries : ℕ

pub record LocalEventBusSnapshot : Type 0 where
  pub is_durable : Bool
  pub maximum_retained_events : ℕ
  pub retained_event_count : ℕ
  pub retained_delivery_count : ℕ
  pub subscriber_names : List String

module _ {F : Type 0} where
  -- `isinstance(value, (str, int, float, bool, type(None)))`
  abbrev pub is_scalar : Json F → Bool
  is_scalar (array _ _) = false
  is_scalar (object _) = false
  is_scalar absent = false
  is_scalar _ = true

  abbrev pub as_dict : List (String × Json F) → Dict F
  as_dict [] = empty
  as_dict ((k, v) ∷ items) = put k v (as_dict items)

  -- The constructor of `LocalApplicationEvent` with its `__post_init__`; an aware `datetime` has
  -- an offset.
  unfoldable pub local_application_event :
      LocalApplicationEvent F → Result (LocalApplicationEvent F)
  local_application_event e = do
    raise_if (is_empty e.event_id || is_empty e.correlation_id || is_empty e.producer)
        (value_error "local event identity, correlation ID and producer are required")
    raise_if (not e.occurred_at.aware) (value_error "local event time must be timezone-aware")
    raise_if (is_nil e.attributes) (value_error "local event attributes are required")
    raise_if (any (λ (item : String × Json F). is_blank item.0) e.attributes)
        (value_error "local event attribute keys must be non-blank strings")
    raise_if (any (λ (item : String × Json F). not (is_scalar item.1)) e.attributes)
        (value_error "local event attributes must be scalar values")
    ok e

  -- `LocalApplicationEvent.create`
  unfoldable pub create_event :
      {T : Type 0}
      → Codec F T
      → LocalEventType
      → Datetime
      → String
      → String
      → List (String × Json F)
      → Result (LocalApplicationEvent F)
  unfolding local_event_type_value
  create_event c event_type occurred_at correlation_id producer attributes =
      let canonical = c.dumps (
        object (
          put "event_type" (text (local_event_type_value event_type)) (
            put "occurred_at" (text (c.isoformat occurred_at)) (
              put "correlation_id" (text correlation_id) (
                put "producer" (text producer)
                  (put "attributes" (object (as_dict attributes)) empty)))))) in
      local_application_event (record {
        event_id = "LE-" +++ c.digest canonical;
        event_type = event_type;
        occurred_at = occurred_at;
        correlation_id = correlation_id;
        producer = producer;
        attributes = attributes;
      })

module _ {A : Type 0} where
  -- `xs[-n:]` for a positive `n`
  abbrev pub last : ℕ → List A → List A
  last n xs = drop (length xs - n) xs

  -- `append` on a `deque(maxlen=n)`
  abbrev pub push : ℕ → List A → A → List A
  push n xs x = last n (xs ++ x ∷ [])

module _ {F : Type 0} where
  -- `LocalEventBus.__init__`
  unfoldable pub new_bus : ℤ → Option ℤ → Result (LocalEventBus F)
  unfolding ◌*ℤ◌
  new_bus max_events max_deliveries = do
    raise_if (leb_ℤ max_events (pos 0)) (value_error "max_events must be positive")
    let retained_deliveries : ℤ = elim max_deliveries [ none ↦ max_events *ℤ pos 10 | some n ↦ n ]
    raise_if (leb_ℤ retained_deliveries (pos 0)) (value_error "max_deliveries must be positive")
    ok (record {
      events = [];
      deliveries = [];
      subscribers = [];
      max_events = pos_part max_events;
      max_deliveries = pos_part retained_deliveries;
    })

  abbrev pub names : List (String × LocalEventSubscriber F) → List String
  names subscribers = map (λ (s : String × LocalEventSubscriber F). s.0) subscribers

  -- `LocalEventBus.subscribe`
  unfoldable pub subscribe :
      LocalEventBus F → String → LocalEventSubscriber F → Result (LocalEventBus F)
  subscribe bus subscriber_name subscriber = do
    let name = strip subscriber_name
    raise_if (is_empty name) (value_error "local subscriber name must not be blank")
    raise_if (contains name (names bus.subscribers))
        (value_error "local subscriber name is already registered")
    ok (record bus { subscribers = bus.subscribers ++ (name, subscriber) ∷ [] })

  -- One round of the loop in `publish`: a failure is a delivery like any other.
  unfoldable pub deliver :
      LocalApplicationEvent F → String × LocalEventSubscriber F → LocalEventDelivery
  deliver event (name, subscriber) = elim (subscriber event) [
    | some failure ↦ record {
      event_id = event.event_id;
      subscriber_name = name;
      status = LocalEventDeliveryStatus.failed;
      failure_type = some failure;
    }
    | none ↦ record {
      event_id = event.event_id;
      subscriber_name = name;
      status = LocalEventDeliveryStatus.delivered;
      failure_type = none;
    }
  ]

  -- The loop over the subscribers: the retained deliveries, and those of this event.
  unfoldable pub deliver_all :
      ℕ
      → LocalApplicationEvent F
      → List (String × LocalEventSubscriber F)
      → List LocalEventDelivery
      → List LocalEventDelivery
      → List LocalEventDelivery × List LocalEventDelivery
  deliver_all limit event [] retained own = (retained, own)
  deliver_all limit event (s ∷ subscribers) retained own =
      let d = deliver event s in
      deliver_all limit event subscribers (push limit retained d) (own ++ d ∷ [])

  -- `LocalEventBus.publish`
  unfoldable pub publish :
      LocalEventBus F → LocalApplicationEvent F → LocalEventPublicationResult F × LocalEventBus F
  publish bus event =
      if any (λ (retained : LocalApplicationEvent F). str_eq retained.event_id event.event_id)
        bus.events
      then (record { event = event; accepted = false; duplicate = true; deliveries = [] }, bus)
      else let (retained, own) =
          deliver_all bus.max_deliveries event bus.subscribers bus.deliveries [] in
        (
          record { event = event; accepted = true; duplicate = false; deliveries = own },
          record bus { events = push bus.max_events bus.events event; deliveries = retained },
        )

  -- `LocalEventBus.events`
  unfoldable pub events : LocalEventBus F → ℤ → Result (List (LocalApplicationEvent F))
  events bus limit = do
    raise_if (leb_ℤ limit (pos 0)) (value_error "limit must be positive")
    ok (last (pos_part limit) bus.events)

  -- `LocalEventBus.deliveries`
  unfoldable pub deliveries : LocalEventBus F → Option String → ℤ → Result (List LocalEventDelivery)
  deliveries bus event_id limit = do
    raise_if (leb_ℤ limit (pos 0)) (value_error "limit must be positive")
    let rows : List LocalEventDelivery = elim event_id [
      | none ↦ bus.deliveries
      | some id ↦ keep (λ (row : LocalEventDelivery). str_eq row.event_id id) bus.deliveries
    ]
    ok (last (pos_part limit) rows)

  -- `LocalEventBus.snapshot`
  unfoldable pub snapshot : LocalEventBus F → LocalEventBusSnapshot
  snapshot bus = record {
    is_durable = false;
    maximum_retained_events = bus.max_events;
    retained_event_count = length bus.events;
    retained_delivery_count = length bus.deliveries;
    subscriber_names = names bus.subscribers;
  }
