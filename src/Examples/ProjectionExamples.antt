-- ===== src/Examples/ProjectionExamples.antt =====
-- The theorems on the projection of the paper portfolio, at a purchase of ten units in two fills
-- and an event that comes out of sequence.
use algo_manus.Prelude.{All, String, true, false, all, some, List, [], ◌∷◌, ◌++◌, ◌≡◌, refl}
use algo_manus.Prelude.Int.{ℤ, pos, ◌+ℤ◌, ◌-ℤ◌, ◌*ℤ◌, neg_ℤ, abs_ℤ}
use algo_manus.Prelude.Result.{ok, err}
use algo_manus.Prelude.Floats.{whole}
use algo_manus.Prelude.Time.{at}
use algo_manus.Prelude.Json.{Json, Dict, put, empty, object, text, integer, boolean, plain}
use algo_manus.Paper.{PaperEventType, PaperEvent, apply}
use algo_manus.PaperProjection.State.{Portfolio}
use algo_manus.PaperProjection.Evidence.{
  payload_of, side_of, quantity_of, with_terms, apply_order_terms, parse_side,
}
use algo_manus.PaperProjection.Round.{
  settle, check_fill, fill_facts, apply_fill, stamp, by_type, risk_part, project,
}
use algo_manus.PaperProjection.Replay.{initial, projection, round, replay_events, replay}
use algo_manus.PaperProjection.Conservation.{IsBalanced}
use algo_manus.PaperProjection.Conservation.Streams.{replay_events-IsBalanced, initial-IsBalanced}
use algo_manus.PaperProjection.Soundness.{IsSound, replay-IsSound}
use algo_manus.PaperProjection.Reports.{is_reported, is_named, replay-Reported}
use algo_manus.PaperProjection.Money.{Accounted, round-Accounted}

-- An event of the order "o-1" in "INFY" with this payload.
abbrev recorded : String → PaperEventType → Dict ℤ → PaperEvent (Json ℤ)
recorded event_id event_type payload = record {
  event_id = event_id;
  event_type = event_type;
  occurred_at = at 1;
  order_id = "o-1";
  instrument_id = "INFY";
  payload = object (put "payload" (object payload) empty);
}

-- A purchase of so many units.
abbrev purchase : ℤ → Dict ℤ
purchase quantity = put "side" (text "BUY") (put "quantity" (integer quantity) empty)

-- A fill of so many units at five, after which so many are filled.
abbrev filled : ℤ → ℤ → Dict ℤ
filled quantity cumulative =
    put "fill_price" (integer (pos 5))
      (put "cumulative_filled_quantity" (integer cumulative) (purchase quantity))

abbrev last_fill : PaperEvent (Json ℤ)
last_fill = recorded "e-6" PaperEventType.order_filled (filled (pos 6) (pos 10))

abbrev early : List (PaperEvent (Json ℤ))
early =
    recorded "e-1" PaperEventType.order_proposed (purchase (pos 10))
    ∷ recorded "e-2" PaperEventType.risk_decision (put "allowed" (boolean true) empty)
    ∷ recorded "e-3" PaperEventType.order_accepted (purchase (pos 10))
    ∷ recorded "e-4" PaperEventType.order_partially_filled (filled (pos 4) (pos 4))
    ∷ recorded "e-5" PaperEventType.order_accepted (purchase (pos 10))
    ∷ []

abbrev events : List (PaperEvent (Json ℤ))
events = early ++ last_fill ∷ []

abbrev after : List (PaperEvent (Json ℤ)) → Portfolio ℤ
after seen = elim (replay_events ⦃fl = whole⦄ plain (initial ⦃fl = whole⦄ (pos 100)) seen) [
  | ok s ↦ s
  | err e ↦ initial ⦃fl = whole⦄ (pos 100)
]

replay_events-IsBalanced_example : IsBalanced (after events)
unfolding replay_events round payload_of project risk_part by_type apply_fill fill_facts check_fill
    settle stamp apply_order_terms with_terms side_of quantity_of parse_side apply whole ◌+ℤ◌ ◌-ℤ◌
    ◌*ℤ◌ neg_ℤ abs_ℤ
replay_events-IsBalanced_example =
    replay_events-IsBalanced ⦃fl = whole⦄ plain (initial ⦃fl = whole⦄ (pos 100)) events
      {s' = after events} (initial-IsBalanced ⦃fl = whole⦄ (pos 100)) refl

replay-IsSound_example : IsSound (projection (pos 100) (after events))
unfolding replay replay_events round payload_of project risk_part by_type apply_fill fill_facts
    check_fill settle stamp apply_order_terms with_terms side_of quantity_of parse_side apply whole
    ◌+ℤ◌ ◌-ℤ◌ ◌*ℤ◌ neg_ℤ abs_ℤ
replay-IsSound_example =
    replay-IsSound ⦃fl = whole⦄ plain events (pos 100) {p = projection (pos 100) (after events)}
      refl

round-Accounted_example :
    Accounted ⦃fl = whole⦄
      (after early)
      last_fill
      (some (filled (pos 6) (pos 10)))
      (round ⦃fl = whole⦄ (after early) last_fill (some (filled (pos 6) (pos 10))))
round-Accounted_example =
    round-Accounted ⦃fl = whole⦄ (after early) last_fill (some (filled (pos 6) (pos 10)))

-- The same events with one whose payload is a text.
abbrev with_unread : List (PaperEvent (Json ℤ))
with_unread =
    record last_fill { event_id = "e-7"; payload = object (put "payload" (text "none") empty) }
    ∷ events

replay-Reported_example :
    (whole.lt (pos 100) (whole.of_int (pos 0)) ≡ false)
    × (all (is_reported plain (after with_unread).unprojectable) with_unread ≡ true)
    × All (λ (id : String). is_named with_unread id ≡ true) (after with_unread).unprojectable
unfolding replay projection replay_events round payload_of project risk_part by_type apply_fill
    fill_facts check_fill settle stamp apply_order_terms with_terms side_of quantity_of parse_side
    apply whole ◌+ℤ◌ ◌-ℤ◌ ◌*ℤ◌ neg_ℤ abs_ℤ
replay-Reported_example =
    replay-Reported ⦃fl = whole⦄ plain with_unread (pos 100)
      {p = projection (pos 100) (after with_unread)} refl
