-- ===== src/PaperProjection/Reports.antt =====
-- Which events the projection of `replay` lists as unprojectable.
use algo_manus.Prelude.{
  String, Bool, true, false, none, some, List, [], ◌∷◌, ◌++◌, ◌||◌, all, any, contains, str_eq, All,
  ◌≡◌, refl, arith, subst, inl, inr, Option, Bool-cases, eq_iff,
}
use algo_manus.Prelude.Result.{ok, err, value_error, raise_if, >>=-eq-ok, >>-eq-ok, ok-injective}
use algo_manus.Prelude.Floats.{Floats, zero_f, ◌≺◌}
use algo_manus.Prelude.Json.{Dict, Codec}
use algo_manus.Paper.{PaperEvent}
use algo_manus.PaperProjection.State.{Portfolio, PortfolioProjection, invalid}
use algo_manus.PaperProjection.Evidence.{payload_of}
use algo_manus.PaperProjection.Dicts.{All-weaken}
use algo_manus.PaperProjection.Replay.{initial, projection, round, replay_events, replay}

contains-snoc :
    (x y : String) (ids : List String) → contains y (ids ++ x ∷ []) ≡ (contains y ids || str_eq x y)
contains-snoc x y [] = ground arith
contains-snoc x y (id ∷ ids) = rw (contains-snoc x y ids) (ground arith)

-- `_invalid` adds the ID to the list, keeps those that are there, and adds no other.
contains-invalid :
    (x y : String) (ids : List String) → contains y (invalid x ids) ≡ (contains y ids || str_eq x y)
contains-invalid x y ids = ground (arith, contains-snoc x y ids, eq_iff x y)

contains_self : (ids : List String) → All (λ (id : String). contains id ids ≡ true) ids
contains_self [] = tt
contains_self (id ∷ ids) = (
  ground (arith, eq_iff id id),
  All-weaken _ _ ids (contains_self ids) (λ (x : String) (h : contains x ids ≡ true). ground arith),
)

-- The ID is that of one of the events.
abbrev pub is_named : {T : Type 0} → List (PaperEvent T) → String → Bool
is_named events id = any (λ event. str_eq event.event_id id) events

module _ {F T : Type 0} where
  -- The payload of the event was read as an object, or its ID is among those listed. The text of an
  -- event that is JSON but no object is neither.
  abbrev pub is_reported : Codec F T → List String → PaperEvent T → Bool
  is_reported codec ids event = elim (payload_of codec event) [
    | err e ↦ false
    | ok none ↦ contains event.event_id ids
    | ok (some payload) ↦ true
  ]

module _ {F T : Type 0} ⦃fl : Floats F⦄ where
  -- A round keeps the IDs listed, and adds at most that of its event.
  round-keeps :
      (y : String) (s : Portfolio F) (event : PaperEvent T) (read : Option (Dict F))
      → contains y s.unprojectable ≡ true
      → contains y (round s event read).unprojectable ≡ true
  unfolding round
  round-keeps y s event none h = ground (arith, contains-invalid event.event_id y s.unprojectable)
  round-keeps y s event (some payload) h =
      ground (arith, contains-invalid event.event_id y s.unprojectable)

  round-adds :
      (y : String) (s : Portfolio F) (event : PaperEvent T) (read : Option (Dict F))
      → contains y (round s event read).unprojectable ≡ true
      → (contains y s.unprojectable || str_eq event.event_id y) ≡ true
  unfolding round
  round-adds y s event none h = ground (arith, contains-invalid event.event_id y s.unprojectable)
  round-adds y s event (some payload) h =
      ground (arith, contains-invalid event.event_id y s.unprojectable)

  round-unread :
      (s : Portfolio F) (event : PaperEvent T)
      → contains event.event_id (round s event none).unprojectable ≡ true
  unfolding round
  round-unread s event = ground (
    arith,
    contains-invalid event.event_id event.event_id s.unprojectable,
    eq_iff event.event_id event.event_id,
  )

module _ {F T : Type 0} ⦃fl : Floats F⦄ (codec : Codec F T) where
  replay_events-keeps :
      (y : String) (s : Portfolio F) (events : List (PaperEvent T)) {t : Portfolio F}
      → contains y s.unprojectable ≡ true
      → replay_events codec s events ≡ ok t
      → contains y t.unprojectable ≡ true
  unfolding replay_events
  replay_events-keeps y s [] h returned = ground arith
  replay_events-keeps y s (event ∷ events) h returned =
      let (read, e, rest) = >>=-eq-ok (payload_of codec event) _ returned in
      replay_events-keeps y (round s event read) events (round-keeps y s event read h) rest

  replay_events-adds :
      (y : String) (s : Portfolio F) (events : List (PaperEvent T)) {t : Portfolio F}
      → replay_events codec s events ≡ ok t
      → contains y t.unprojectable ≡ true
      → (contains y s.unprojectable || is_named events y) ≡ true
  unfolding replay_events
  replay_events-adds y s [] returned h = ground arith
  replay_events-adds y s (event ∷ events) returned h =
      let (read, e, rest) = >>=-eq-ok (payload_of codec event) _ returned in
      let later = replay_events-adds y (round s event read) events rest h in
      elim (Bool-cases (contains y (round s event read).unprojectable)) [
        | inl there ↦ ground (arith, round-adds y s event read there)
        | inr absent ↦ ground (arith, later)
      ]

  round-reports :
      (s : Portfolio F) (event : PaperEvent T) (events : List (PaperEvent T))
      (read : Option (Dict F)) {t : Portfolio F}
      → payload_of codec event ≡ ok read
      → replay_events codec (round s event read) events ≡ ok t
      → is_reported codec t.unprojectable event ≡ true
  round-reports s event events none e returned =
      let kept =
        replay_events-keeps event.event_id (round s event none) events (round-unread s event)
          returned in
      rw (is_reported, e) kept
  round-reports s event events (some payload) e returned = rw (is_reported, e) refl

  replay_events-reports :
      (s : Portfolio F) (events : List (PaperEvent T)) {t : Portfolio F}
      → replay_events codec s events ≡ ok t
      → all (is_reported codec t.unprojectable) events ≡ true
  unfolding replay_events
  replay_events-reports s [] returned = refl
  replay_events-reports s (event ∷ events) returned =
      let (read, e, rest) = >>=-eq-ok (payload_of codec event) _ returned in
      rw (round-reports s event events read e rest)
        (replay_events-reports (round s event read) events rest)

  -- Where `replay` returns a projection, the starting cash is not negative; every event either has
  -- a text that was read as a JSON object with an object as its payload, or its ID is listed as
  -- unprojectable; and every ID that is listed is that of an event. An event whose text is JSON but
  -- no object is neither, so `replay` does not return on one.
  pub replay-Reported :
      (events : List (PaperEvent T)) (starting_cash : F) {p : PortfolioProjection F}
      → replay codec events starting_cash ≡ ok p
      → ((starting_cash ≺ zero_f) ≡ false)
        × (all (is_reported codec p.unprojectable_event_ids) events ≡ true)
        × All (λ (id : String). is_named events id ≡ true) p.unprojectable_event_ids
  unfolding replay projection
  replay-Reported events starting_cash returned =
      let (checked, rest) =
        >>-eq-ok
          (raise_if (starting_cash ≺ zero_f) (value_error "starting_cash cannot be negative")) _
          returned in
      let (s, replayed, made) =
        >>=-eq-ok (replay_events codec (initial starting_cash) events) _ rest in
      subst
        (λ (p : PortfolioProjection F).
          ((starting_cash ≺ zero_f) ≡ false)
          × (all (is_reported codec p.unprojectable_event_ids) events ≡ true)
          × All (λ (id : String). is_named events id ≡ true) p.unprojectable_event_ids)
        (ok-injective made)
        (
          ground arith,
          replay_events-reports (initial starting_cash) events replayed,
          All-weaken _ _ s.unprojectable (contains_self s.unprojectable)
              (λ (id : String) (h : contains id s.unprojectable ≡ true).
                replay_events-adds id (initial starting_cash) events replayed h),
        )
