-- ===== src/EventBus/Retention.antt =====
-- The two bounded deques of the event bus: how much they keep.
use algo_manus.Prelude.{
  ℕ, zero, suc, ◌-◌, ◌≤◌, String, Bool, true, Option, none, some, List, [], ◌∷◌, ◌++◌, ◌≡◌, refl,
  arith, length, drop, any, str_eq, length-append, Bool-cases, inl, inr,
}
use algo_manus.Prelude.Int.{ℤ, ◌*ℤ◌}
use algo_manus.Prelude.Result.{ok}
use algo_manus.EventBus.{
  LocalApplicationEvent, LocalEventDelivery, LocalEventBus, LocalEventSubscriber, last, push,
  new_bus, subscribe, publish, deliver, deliver_all,
}

module _ {A : Type 0} where
  length-drop : (n : ℕ) (xs : List A) → length (drop n xs) ≡ length xs - n
  length-drop zero xs = omega arith
  length-drop (suc n) [] = omega arith
  length-drop (suc n) (x ∷ xs) = omega (arith, length-drop n xs)

  pub length-last : (n : ℕ) (xs : List A) → length (last n xs) ≤ n
  length-last n xs = omega (arith, length-drop (length xs - n) xs)

  any-drop :
      (p : A → Bool) (n : ℕ) (xs : List A) (x : A)
      → n ≤ length xs
      → p x ≡ true
      → any p (drop n (xs ++ x ∷ [])) ≡ true
  any-drop p zero [] x h e = rw e refl
  any-drop p zero (y ∷ xs) x h e = ground (arith, any-drop p zero xs x (omega arith) e)
  any-drop p (suc n) [] x h e = absurd (omega arith)
  any-drop p (suc n) (y ∷ xs) x h e = any-drop p n xs x (omega arith) e

  -- A deque that keeps anything keeps what was pushed last.
  pub any-push :
      (p : A → Bool) (n : ℕ) (xs : List A) (x : A) → 1 ≤ n → p x ≡ true → any p (push n xs x) ≡ true
  any-push p n xs x h e =
      any-drop p (length (xs ++ x ∷ []) - n) xs x (omega (arith, length-append xs (x ∷ []))) e

-- Both deques keep at least one row and at most their bounds.
pub record IsBounded {F : Type 0} (bus : LocalEventBus F) : Type 0 where
  pub some_events : 1 ≤ bus.max_events
  pub some_deliveries : 1 ≤ bus.max_deliveries
  pub events_bounded : length bus.events ≤ bus.max_events
  pub deliveries_bounded : length bus.deliveries ≤ bus.max_deliveries

module _ {F : Type 0} where
  new_bus-IsBounded :
      (max_events : ℤ) (max_deliveries : Option ℤ) {bus : LocalEventBus F}
      → new_bus max_events max_deliveries ≡ ok bus
      → IsBounded bus
  unfolding new_bus ◌*ℤ◌
  new_bus-IsBounded max_events none {bus} h = record {
    some_events = ground arith;
    some_deliveries = ground arith;
    events_bounded = ground arith;
    deliveries_bounded = ground arith;
  }
  new_bus-IsBounded max_events (some n) {bus} h = record {
    some_events = ground arith;
    some_deliveries = ground arith;
    events_bounded = ground arith;
    deliveries_bounded = ground arith;
  }

  deliver_all-bounded :
      (limit : ℕ) (event : LocalApplicationEvent F)
      (subscribers : List (String × LocalEventSubscriber F))
      (retained own : List LocalEventDelivery)
      → length retained ≤ limit
      → length (deliver_all limit event subscribers retained own).0 ≤ limit
  unfolding deliver_all
  deliver_all-bounded limit event [] retained own h = h
  deliver_all-bounded limit event (s ∷ subscribers) retained own h =
      deliver_all-bounded limit event subscribers _ _
        (length-last limit (retained ++ deliver event s ∷ []))

  publish-IsBounded :
      (bus : LocalEventBus F) (event : LocalApplicationEvent F)
      → IsBounded bus
      → IsBounded (publish bus event).1
  unfolding publish
  publish-IsBounded bus event b =
      elim (Bool-cases
        (any (λ (row : LocalApplicationEvent F). str_eq row.event_id event.event_id) bus.events)) [
          | inl e ↦ rw e b
          | inr e ↦ rw e (record {
            some_events = b.some_events;
            some_deliveries = b.some_deliveries;
            events_bounded = length-last bus.max_events (bus.events ++ event ∷ []);
            deliveries_bounded =
                deliver_all-bounded bus.max_deliveries event bus.subscribers bus.deliveries []
                  b.deliveries_bounded;
          })
        ]

-- The buses that calls of the constructor, `subscribe` and `publish` lead to.
pub data Reached {F : Type 0} : LocalEventBus F → Type 0 where
  created :
      {bus : LocalEventBus F} (max_events : ℤ) (max_deliveries : Option ℤ)
      → new_bus max_events max_deliveries ≡ ok bus
      → Reached bus
  subscribed :
      {bus bus' : LocalEventBus F} (name : String) (subscriber : LocalEventSubscriber F)
      → Reached bus
      → subscribe bus name subscriber ≡ ok bus'
      → Reached bus'
  published :
      {bus : LocalEventBus F} (event : LocalApplicationEvent F)
      → Reached bus
      → Reached (publish bus event).1

-- However the constructor, `subscribe` and `publish` are called, the bus retains at most
-- `max_events` events and `max_deliveries` deliveries, and both bounds are at least 1.
pub Reached-IsBounded : {F : Type 0} {bus : LocalEventBus F} → Reached bus → IsBounded bus
unfolding subscribe
Reached-IsBounded (Reached.created max_events max_deliveries h) =
    new_bus-IsBounded max_events max_deliveries h
Reached-IsBounded (Reached.subscribed {bus} {bus'} name subscriber before h) =
    let b = Reached-IsBounded before in
    record {
      some_events = ground (arith, b.some_events);
      some_deliveries = ground (arith, b.some_deliveries);
      events_bounded = ground (arith, b.events_bounded);
      deliveries_bounded = ground (arith, b.deliveries_bounded);
    }
Reached-IsBounded (Reached.published event before) =
    publish-IsBounded _ event (Reached-IsBounded before)
