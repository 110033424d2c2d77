-- ===== src/Examples/AuditExamples.antt =====
-- The theorems on the audit of paper events, at two orders of which one is approved and accepted.
use algo_manus.Prelude.{
  String, true, none, some, List, [], ◌∷◌, ◌++◌, keep, length, str_eq, All, ◌≡◌, ◌+◌, refl, arith,
}
use algo_manus.Prelude.Text.{strip, lstrip, rstrip, is_space, is_blank}
use algo_manus.Prelude.Int.{ℤ, pos}
use algo_manus.Prelude.Result.{ok, err}
use algo_manus.Prelude.Floats.{whole}
use algo_manus.Prelude.Time.{at}
use algo_manus.Prelude.Json.{Json, Dict, put, empty, object, text, integer, boolean, plain}
use algo_manus.Paper.{PaperEventType, PaperEvent, apply}
use algo_manus.PaperLedger
use algo_manus.PaperLedger.{PaperLedger}
use algo_manus.PaperProjection.State.{Portfolio}
use algo_manus.PaperProjection.Evidence.{
  payload_of, side_of, quantity_of, with_terms, apply_order_terms, parse_side,
}
use algo_manus.PaperProjection.Round.{by_type, risk_part, project}
use algo_manus.PaperProjection.Replay.{initial, round, replay_events}
use algo_manus.PaperAudit.Scopes.{
  integrity_scope, event_type_scope, lifecycle_state_scope, side_scope, instrument_scope,
  time_window,
}
use algo_manus.PaperAudit.Timeline.{AuditRow, timeline}
use algo_manus.PaperAudit.Service.{
  IntegritySummary, unfiltered, events_in, rows, integrity, row_detail,
}
use algo_manus.PaperAudit.Agreement.{statuses, replay_events-audited}
use algo_manus.PaperAudit.Isolation.{rows-Isolated}
use algo_manus.PaperAudit.Integrity.{is_doubly_invalid, integrity-Counted}
use algo_manus.PaperAudit.Detail.{Answers, row_detail-Answers}

-- An event of this order in "INFY" with this payload.
abbrev recorded : String → String → PaperEventType → Dict ℤ → PaperEvent (Json ℤ)
recorded event_id order_id event_type payload = record {
  event_id = event_id;
  event_type = event_type;
  occurred_at = at 1;
  order_id = order_id;
  instrument_id = "INFY";
  payload = object (put "payload" (object payload) empty);
}

abbrev terms : Dict ℤ
terms = put "side" (text "BUY") (put "quantity" (integer (pos 10)) empty)

abbrev approved : Dict ℤ
approved = put "allowed" (boolean true) empty

-- Upper case in the tests, whose texts have no other.
abbrev same : String → String
same s = s

abbrev two_orders : PaperLedger (Json ℤ)
two_orders =
    recorded "e-1" "o-1" PaperEventType.order_proposed terms
    ∷ recorded "e-2" "o-2" PaperEventType.order_proposed terms
    ∷ recorded "e-3" "o-1" PaperEventType.risk_decision approved
    ∷ recorded "e-4" "o-1" PaperEventType.order_accepted terms
    ∷ []

-- The same with an acceptance of the order that is not approved.
abbrev out_of_sequence : PaperLedger (Json ℤ)
out_of_sequence = two_orders ++ recorded "e-5" "o-2" PaperEventType.order_accepted terms ∷ []

abbrev projected : Portfolio ℤ
projected = elim (replay_events ⦃fl = whole⦄ plain (initial ⦃fl = whole⦄ (pos 100)) two_orders) [
  | ok s ↦ s
  | err e ↦ initial ⦃fl = whole⦄ (pos 100)
]

replay_events-audited_example :
    All
      (λ (row : AuditRow ℤ). row.integrity_status ≡ "VALID")
      (timeline ⦃fl = whole⦄ plain [] two_orders).0
    × ((timeline ⦃fl = whole⦄ plain [] two_orders).1 ≡ statuses projected.orders)
unfolding replay_events round payload_of project risk_part by_type apply_order_terms with_terms
    side_of quantity_of parse_side apply whole
replay_events-audited_example =
    replay_events-audited ⦃fl = whole⦄ plain (pos 100) two_orders {t = projected} refl refl

abbrev shown : PaperLedger (Json ℤ) → List (AuditRow ℤ)
shown ledger = (timeline ⦃fl = whole⦄ plain [] ledger).0

abbrev listed : PaperLedger (Json ℤ) → List (AuditRow ℤ)
listed ledger = elim (rows ⦃fl = whole⦄ same plain ledger (unfiltered (pos 9) none)) [
  | ok found ↦ found
  | err e ↦ []
]

rows-Isolated_example :
    rows ⦃fl = whole⦄ same plain out_of_sequence (unfiltered (pos 9) (some "o-1"))
    ≡ ok (keep (λ (row : AuditRow ℤ). str_eq row.order_id "o-1") (listed out_of_sequence))
unfolding rows strip lstrip rstrip is_space is_blank PaperLedger.order_ids integrity_scope
    event_type_scope lifecycle_state_scope side_scope time_window events_in PaperLedger.events
    instrument_scope
rows-Isolated_example =
    rows-Isolated ⦃fl = whole⦄ same plain out_of_sequence "o-1" (pos 9)
      {shown = listed out_of_sequence} (omega arith) refl refl refl

abbrev counted : IntegritySummary
counted = elim (integrity ⦃fl = whole⦄ same plain out_of_sequence (unfiltered (pos 9) none)) [
  | ok summary ↦ summary
  | err e ↦ record {
    total_events = 0;
    valid_events = 0;
    malformed_payload_events = 0;
    invalid_lifecycle_events = 0;
  }
]

integrity-Counted_example :
    (counted.total_events ≡ length (listed out_of_sequence))
    × (counted.total_events + length (keep is_doubly_invalid (listed out_of_sequence))
        ≡ counted.valid_events + counted.malformed_payload_events
          + counted.invalid_lifecycle_events)
unfolding rows integrity integrity_scope event_type_scope lifecycle_state_scope side_scope
    time_window events_in PaperLedger.events instrument_scope
integrity-Counted_example =
    integrity-Counted ⦃fl = whole⦄ same plain out_of_sequence (unfiltered (pos 9) none)
      {shown = listed out_of_sequence} {summary = counted} refl refl

row_detail-Answers_example :
    Answers ⦃fl = whole⦄ same plain out_of_sequence "e-4"
      (pos 9)
      (row_detail ⦃fl = whole⦄ same plain out_of_sequence "e-4" (pos 9))
row_detail-Answers_example =
    row_detail-Answers ⦃fl = whole⦄ same plain out_of_sequence "e-4" (pos 9)
