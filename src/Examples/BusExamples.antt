-- ===== src/Examples/BusExamples.antt =====
-- The theorems on the event bus at a bus of two events and one failing subscriber.
use algo_manus.Prelude.{String, true, none, some, [], ◌∷◌, ◌≡◌, ◌↔◌, refl, map}
use algo_manus.Prelude.Int.{ℤ, pos}
use algo_manus.Prelude.Text.{strip, lstrip, rstrip, is_blank, is_space}
use algo_manus.Prelude.Time.{at}
use algo_manus.Prelude.Json.{text}
use algo_manus.EventBus.{
  LocalApplicationEvent, LocalEventBus, LocalEventDeliveryStatus, LocalEventSubscriber,
  LocalEventType, new_bus, subscribe, publish, deliver,
}
use algo_manus.EventBus.Retention.{IsBounded, Reached, Reached-IsBounded}
use algo_manus.EventBus.Publication.{publish-deliver}

abbrev event : LocalApplicationEvent ℤ
event = record {
  event_id = "LE-1";
  event_type = LocalEventType.paper_ledger_event_retained;
  occurred_at = at 1;
  correlation_id = "o-1";
  producer = "tests";
  attributes = ("instrument_id", text "INFY") ∷ [];
}

abbrev failing : LocalEventSubscriber ℤ
failing e = some "ValueError"

abbrev quiet : LocalEventSubscriber ℤ
quiet e = none

abbrev bus : LocalEventBus ℤ
bus = record {
  events = [];
  deliveries = [];
  subscribers = ("audit", failing) ∷ ("view", quiet) ∷ [];
  max_events = 2;
  max_deliveries = 3;
}

publish-deliver_example :
    ((publish bus event).0.accepted ≡ true)
    × ((publish bus event).0.deliveries
        ≡ map (deliver event) (("audit", failing) ∷ ("view", quiet) ∷ []))
    × ((s : String × LocalEventSubscriber ℤ)
        → ((deliver event s).subscriber_name ≡ s.0)
          × ((deliver event s).failure_type ≡ s.1 event)
          × (((deliver event s).status ≡ LocalEventDeliveryStatus.delivered) ↔ (s.1 event ≡ none)))
publish-deliver_example = publish-deliver bus event refl

-- The bus of two events with one subscriber.
abbrev with_audit : LocalEventBus ℤ
with_audit = record bus { subscribers = ("audit", failing) ∷ [] }

audited : Reached with_audit
unfolding new_bus subscribe strip lstrip rstrip is_blank is_space
audited =
    Reached.subscribed {bus = record with_audit { subscribers = [] }} " audit " failing
      (Reached.created (pos 2) (some (pos 3)) refl) refl

Reached-IsBounded_example : IsBounded (publish with_audit event).1
Reached-IsBounded_example = Reached-IsBounded (Reached.published event audited)
