-- ===== src/PaperAudit/Service.antt =====
-- The queries of `PaperOperationAuditTimelineReadService`: `rows`, `integrity`, `filter_summary`
-- and `row_detail`.
use algo_manus.Prelude.{
  ℕ, String, Bool, Option, none, some, List, [], ◌∷◌, map, keep, length, take, str_eq, contains,
  strip, is_empty, not, ◌&&◌, if◌then◌else◌,
}
use algo_manus.Prelude.Int.{ℤ, pos, pos_part, leb_ℤ}
use algo_manus.Prelude.Result.{Result, ok, err, value_error, key_error, raise_if, ◌>>=◌, ◌>>◌}
use algo_manus.Prelude.Floats.{Floats}
use algo_manus.Prelude.Time.{Datetime}
use algo_manus.Prelude.Json.{Codec}
use algo_manus.Paper.{PaperEvent}
use algo_manus.PaperLedger
use algo_manus.PaperLedger.{PaperLedger}
use algo_manus.PaperProjection.State.{find, assign}
use algo_manus.PaperAudit.Scopes.{
  integrity_scope, event_type_scope, lifecycle_state_scope, instrument_scope, side_scope,
  order_scope, time_window, matches_integrity_scope, matches_scope, matches_side_scope,
  matches_time_window,
}
use algo_manus.PaperAudit.Timeline.{AuditRow, timeline}

-- The arguments of `rows`.
pub record Query : Type 0 where
  pub limit : ℤ
  pub order_id : Option String
  pub integrity_filter : Option String
  pub event_type_filter : Option String
  pub lifecycle_state_filter : Option String
  pub instrument_id_filter : Option String
  pub side_filter : Option String
  pub start_time : Option Datetime
  pub end_time : Option Datetime

-- `rows(limit, order_id)`
abbrev pub unfiltered : ℤ → Option String → Query
unfiltered limit order_id = record {
  limit = limit;
  order_id = order_id;
  integrity_filter = none;
  event_type_filter = none;
  lifecycle_state_filter = none;
  instrument_id_filter = none;
  side_filter = none;
  start_time = none;
  end_time = none;
}

-- The normalised scopes of a query.
pub record Scopes : Type 0 where
  pub integrity_scope : String
  pub event_type_scope : String
  pub lifecycle_state_scope : String
  pub instrument_scope : String
  pub side_scope : String
  pub time_window : Option Datetime × Option Datetime

-- `LocalPaperOperationAuditIntegritySummary`
pub record IntegritySummary : Type 0 where
  pub total_events : ℕ
  pub valid_events : ℕ
  pub malformed_payload_events : ℕ
  pub invalid_lifecycle_events : ℕ

-- `LocalPaperOperationAuditFilterSummary`
pub record FilterSummary : Type 0 where
  pub order_scope : String
  pub integrity_scope : String
  pub event_type_scope : String
  pub lifecycle_state_scope : String
  pub instrument_scope : String
  pub side_scope : String
  pub start_time : Option Datetime
  pub end_time : Option Datetime

-- `LocalPaperOperationAuditRowDetail`
pub record RowDetail (F T : Type 0) : Type 0 where
  pub row : AuditRow F
  pub retained_payload : T

module _ {T : Type 0} where
  -- `_events`
  unfoldable pub events_in : PaperLedger T → ℤ → Option String → Result (List (PaperEvent T))
  events_in ledger limit none = PaperLedger.events ledger limit
  events_in ledger limit (some order_id) = do
    let retained_order_id = strip order_id
    raise_if (is_empty retained_order_id) (value_error "order_id must not be blank")
    raise_if (not (contains retained_order_id (PaperLedger.order_ids ledger)))
        (value_error "unknown retained order_id")
    ok (take (pos_part limit) (PaperLedger.events_for ledger retained_order_id))

module _ {F : Type 0} where
  -- The condition of the comprehension at the end of `rows`.
  unfoldable pub matches : Scopes → AuditRow F → Bool
  matches s row =
      matches_integrity_scope row.integrity_status s.integrity_scope
      && matches_scope row.event_type s.event_type_scope
      && matches_scope row.lifecycle_state s.lifecycle_state_scope
      && matches_scope row.instrument_id s.instrument_scope
      && matches_side_scope row.side s.side_scope
      && matches_time_window row.occurred_at s.time_window

  abbrev instruments_of : List (AuditRow F) → List String
  instruments_of rows = map (λ (row : AuditRow F). row.instrument_id) rows

  -- What `integrity` counts in the rows.
  unfoldable pub integrity_summary : List (AuditRow F) → IntegritySummary
  integrity_summary rows = record {
    total_events = length rows;
    valid_events = length (keep (λ (row : AuditRow F). str_eq row.integrity_status "VALID") rows);
    malformed_payload_events = length (keep (λ (row : AuditRow F). not row.payload_valid) rows);
    invalid_lifecycle_events =
        length (keep (λ (row : AuditRow F). str_eq row.lifecycle_state "UNPROJECTABLE") rows);
  }

  -- `{row.event_id: row for row in rows}`
  unfoldable pub by_event_id :
      List (String × AuditRow F) → List (AuditRow F) → List (String × AuditRow F)
  by_event_id known [] = known
  by_event_id known (row ∷ rows) = by_event_id (assign row.event_id row known) rows

module _ {F T : Type 0} where
  -- The loop of `row_detail`.
  unfoldable pub detail_among :
      List (String × AuditRow F) → String → List (PaperEvent T) → Result (RowDetail F T)
  detail_among rows retained_event_id [] = err (value_error "unknown retained event_id")
  detail_among rows retained_event_id (event ∷ events) =
      if str_eq event.event_id retained_event_id
      then elim (find event.event_id rows) [
        | none ↦ err (key_error event.event_id)
        | some row ↦ ok (record { row = row; retained_payload = event.payload })
      ]
      else detail_among rows retained_event_id events

module _ {F T : Type 0} ⦃fl : Floats F⦄ (upper : String → String) (codec : Codec F T) where
  -- `rows`
  unfoldable pub rows : PaperLedger T → Query → Result (List (AuditRow F))
  rows ledger q = do
    raise_if (leb_ℤ q.limit (pos 0)) (value_error "limit must be positive")
    integrity ← integrity_scope upper q.integrity_filter
    event_type ← event_type_scope upper q.event_type_filter
    lifecycle_state ← lifecycle_state_scope upper q.lifecycle_state_filter
    side ← side_scope upper q.side_filter
    window ← time_window q.start_time q.end_time
    events ← events_in ledger q.limit q.order_id
    let all_rows = (timeline codec [] events).0
    instrument ← instrument_scope (instruments_of all_rows) q.instrument_id_filter
    ok (
        keep
          (matches (record {
            integrity_scope = integrity;
            event_type_scope = event_type;
            lifecycle_state_scope = lifecycle_state;
            instrument_scope = instrument;
            side_scope = side;
            time_window = window;
          }))
          all_rows)

  -- `integrity`
  unfoldable pub integrity : PaperLedger T → Query → Result IntegritySummary
  integrity ledger q = do shown ← rows ledger q; ok (integrity_summary shown)

  -- `filter_summary`
  unfoldable pub filter_summary : PaperLedger T → Query → Result FilterSummary
  filter_summary ledger q = do
    raw_rows ← rows ledger (unfiltered q.limit q.order_id)
    window ← time_window q.start_time q.end_time
    integrity ← integrity_scope upper q.integrity_filter
    event_type ← event_type_scope upper q.event_type_filter
    lifecycle_state ← lifecycle_state_scope upper q.lifecycle_state_filter
    instrument ← instrument_scope (instruments_of raw_rows) q.instrument_id_filter
    side ← side_scope upper q.side_filter
    ok (record {
      order_scope = order_scope q.order_id;
      integrity_scope = integrity;
      event_type_scope = event_type;
      lifecycle_state_scope = lifecycle_state;
      instrument_scope = instrument;
      side_scope = side;
      start_time = window.0;
      end_time = window.1;
    })

  -- `row_detail`
  unfoldable pub row_detail : PaperLedger T → String → ℤ → Result (RowDetail F T)
  row_detail ledger event_id limit = do
    let retained_event_id = strip event_id
    raise_if (is_empty retained_event_id) (value_error "event_id must not be blank")
    shown ← rows ledger (unfiltered limit none)
    events ← PaperLedger.events ledger limit
    detail_among (by_event_id [] shown) retained_event_id events
