-- ===== src/EventBus/Publication.antt =====
-- `LocalEventBus.publish`: who is told of an event, and what a second publication does.
use text.Mathlib.TextPositions.{eq_refl}
use algo_manus.Prelude.{
  ℕ, ◌≤◌, String, true, false, none, List, [], ◌∷◌, ◌++◌, map, ◌≡◌, ◌↔◌, refl, sym, ◌∙◌, arith, any,
  str_eq, Bool-cases, inl, inr,
}
use algo_manus.EventBus.{
  LocalApplicationEvent, LocalEventDelivery, LocalEventDeliveryStatus, LocalEventBus,
  LocalEventSubscriber, publish, deliver, deliver_all,
}
use algo_manus.EventBus.Retention.{any-push}

module _ {A : Type 0} where
  append_assoc : (xs : List A) (y : A) (zs : List A) → (xs ++ y ∷ []) ++ zs ≡ xs ++ y ∷ zs
  append_assoc [] y zs = refl
  append_assoc (x ∷ xs) y zs = rw (append_assoc xs y zs) refl

  append_nil : (xs : List A) → xs ++ [] ≡ xs
  append_nil [] = refl
  append_nil (x ∷ xs) = rw (append_nil xs) refl

module _ {F : Type 0} where
  deliver_all-own :
      (limit : ℕ) (event : LocalApplicationEvent F)
      (subscribers : List (String × LocalEventSubscriber F))
      (retained own : List LocalEventDelivery)
      → (deliver_all limit event subscribers retained own).1
        ≡ own ++ map (deliver event) subscribers
  unfolding deliver_all
  deliver_all-own limit event [] retained own = sym (append_nil own)
  deliver_all-own limit event (s ∷ subscribers) retained own =
      deliver_all-own limit event subscribers _ (own ++ deliver event s ∷ [])
      ∙ append_assoc own (deliver event s) (map (deliver event) subscribers)

  -- An event whose ID is not retained is accepted, and every subscriber gets it exactly once, in
  -- the order of subscription, whatever the ones before did with it: the delivery of a subscriber
  -- that raises is FAILED with the name of its exception, and all others are DELIVERED.
  pub publish-deliver :
      (bus : LocalEventBus F) (event : LocalApplicationEvent F)
      → any (λ (row : LocalApplicationEvent F). str_eq row.event_id event.event_id) bus.events
        ≡ false
      → ((publish bus event).0.accepted ≡ true)
        × ((publish bus event).0.deliveries ≡ map (deliver event) bus.subscribers)
        × ((s : String × LocalEventSubscriber F)
            → ((deliver event s).subscriber_name ≡ s.0)
              × ((deliver event s).failure_type ≡ s.1 event)
              × (((deliver event s).status ≡ LocalEventDeliveryStatus.delivered)
                  ↔ (s.1 event ≡ none)))
  unfolding publish deliver
  publish-deliver bus event fresh = rw fresh (
    refl,
    deliver_all-own bus.max_deliveries event bus.subscribers bus.deliveries [],
    λ s. (ground arith, ground arith, (λ h. ground arith, λ h. ground arith)),
  )

  -- On a bus that keeps at least one event, a second publication of an event right after the first
  -- is a duplicate: it is not accepted, nobody is told, and the bus stays as it is.
  pub publish-twice :
      (bus : LocalEventBus F) (event : LocalApplicationEvent F)
      → 1 ≤ bus.max_events
      → ((publish (publish bus event).1 event).0.accepted ≡ false)
        × ((publish (publish bus event).1 event).0.deliveries ≡ [])
        × ((publish (publish bus event).1 event).1 ≡ (publish bus event).1)
  unfolding publish
  publish-twice bus event some_events =
      let same = λ (row : LocalApplicationEvent F). str_eq row.event_id event.event_id in
      elim (Bool-cases (any same bus.events)) [
        | inl e ↦ rw (e, e) (refl, refl, refl)
        | inr e ↦
            rw
              (
                e,
                any-push same bus.max_events bus.events event some_events (eq_refl event.event_id),
              )
              (refl, refl, refl)
      ]
