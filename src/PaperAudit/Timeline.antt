-- ===== src/PaperAudit/Timeline.antt =====
-- The rows of the audit, one for each event, and the loop of `rows` that makes them.
use algo_manus.Prelude.{
  String, Bool, Option, none, some, is_some, List, [], ◌∷◌, not, ◌&&◌, if◌then◌else◌,
}
use algo_manus.Prelude.Int.{ℤ}
use algo_manus.Prelude.Floats.{Floats}
use algo_manus.Prelude.Time.{Datetime}
use algo_manus.Prelude.Json.{Dict, Codec}
use algo_manus.Paper.{
  PaperOrderStatus, PaperEventType, PaperEvent, apply, status_value, event_type_value,
}
use algo_manus.PaperProjection.State.{find, assign, found_or}
use algo_manus.PaperAudit.Fields.{
  payload_read, string_field, positive_int, positive_number, boolean_field, nested_string,
  nested_positive_number, nested_nonnegative_int, nested_nonnegative_number, nested_boolean,
}

-- `LocalPaperOperationAuditRow`
pub record AuditRow (F : Type 0) : Type 0 where
  pub event_id : String
  pub occurred_at : Datetime
  pub event_type : String
  pub lifecycle_state : String
  pub order_id : String
  pub instrument_id : String
  pub payload_valid : Bool
  pub integrity_status : String
  pub side : Option String
  pub quantity : Option ℤ
  pub cumulative_filled_quantity : Option ℤ
  pub reference_price : Option F
  pub fill_price : Option F
  pub decision_allowed : Option Bool
  pub decision_code : Option String
  pub central_decision_type : Option String
  pub central_decision_code : Option String
  pub reconciliation_disposition : Option String
  pub simulation_model_version : Option String
  pub simulation_outcome : Option String
  pub simulation_reason_code : Option String
  pub simulation_limit_price : Option F
  pub simulation_observed_price : Option F
  pub simulation_available_quantity : Option ℤ
  pub simulation_adverse_slippage_bps : Option F
  pub simulation_session_open : Option Bool
  pub research_batch_id : Option String
  pub research_manifest_id : Option String
  pub research_dataset_id : Option String
  pub research_validation_policy_version : Option String

-- `_integrity_status`
unfoldable pub integrity_of : Bool → Bool → String
integrity_of payload_valid lifecycle_valid =
    if payload_valid && lifecycle_valid
    then "VALID"
    else if not payload_valid && not lifecycle_valid
    then "MALFORMED_PAYLOAD_AND_INVALID_LIFECYCLE"
    else if not payload_valid
    then "MALFORMED_PAYLOAD"
    else "INVALID_LIFECYCLE"

-- `"UNPROJECTABLE" if next_state is None else next_state.value`
unfoldable pub shown_state : Option PaperOrderStatus → String
shown_state none = "UNPROJECTABLE"
shown_state (some next_state) = status_value next_state

-- The dict `states`.
abbrev pub States : Type 0
States = List (String × PaperOrderStatus)

-- `if next_state is not None: states[order_id] = next_state`
abbrev pub with_state : String → Option PaperOrderStatus → States → States
with_state order_id none states = states
with_state order_id (some next_state) states = assign order_id next_state states

-- `states.get(order_id, PaperOrderStatus.PENDING_RISK)`
abbrev pub current_state : String → States → PaperOrderStatus
current_state order_id states = found_or PaperOrderStatus.pending_risk (find order_id states)

module _ {F : Type 0} where
  -- `risk_allowed`, which only a risk decision has.
  abbrev pub risk_allowed : PaperEventType → Dict F → Option Bool
  risk_allowed PaperEventType.risk_decision payload = boolean_field payload "allowed"
  risk_allowed _ payload = none

module _ {F T : Type 0} where
  -- `next_state`
  unfoldable pub next_state : Codec F T → PaperOrderStatus → PaperEvent T → Option PaperOrderStatus
  next_state codec current event =
      apply current event.event_type (risk_allowed event.event_type (payload_read codec event).0)

module _ {F T : Type 0} ⦃fl : Floats F⦄ where
  -- The row of an event, with its payload and the next state of its order.
  unfoldable pub row_of : PaperEvent T → Dict F × Bool → Option PaperOrderStatus → AuditRow F
  row_of event (payload, payload_valid) next = record {
    event_id = event.event_id;
    occurred_at = event.occurred_at;
    event_type = event_type_value event.event_type;
    lifecycle_state = shown_state next;
    order_id = event.order_id;
    instrument_id = event.instrument_id;
    payload_valid = payload_valid;
    integrity_status = integrity_of payload_valid (is_some next);
    side = string_field payload "side";
    quantity = positive_int payload "quantity";
    cumulative_filled_quantity = positive_int payload "cumulative_filled_quantity";
    reference_price = positive_number payload "reference_price";
    fill_price = positive_number payload "fill_price";
    decision_allowed = boolean_field payload "allowed";
    decision_code = string_field payload "code";
    central_decision_type = string_field payload "central_decision_type";
    central_decision_code = string_field payload "central_decision_code";
    reconciliation_disposition = string_field payload "disposition";
    simulation_model_version = nested_string payload "simulation" "model_version";
    simulation_outcome = nested_string payload "simulation" "outcome";
    simulation_reason_code = nested_string payload "simulation" "reason_code";
    simulation_limit_price = nested_positive_number payload "simulation" "limit_price";
    simulation_observed_price = nested_positive_number payload "simulation" "observed_price";
    simulation_available_quantity =
        nested_nonnegative_int payload "simulation" "available_quantity";
    simulation_adverse_slippage_bps =
        nested_nonnegative_number payload "simulation" "adverse_slippage_bps";
    simulation_session_open = nested_boolean payload "simulation" "session_open";
    research_batch_id = string_field payload "research_batch_id";
    research_manifest_id = string_field payload "research_manifest_id";
    research_dataset_id = string_field payload "research_dataset_id";
    research_validation_policy_version = string_field payload "research_validation_policy_version";
  }

  -- The loop of `rows`: the rows that it appends, and the states at its end.
  unfoldable pub timeline : Codec F T → States → List (PaperEvent T) → List (AuditRow F) × States
  timeline codec states [] = ([], states)
  timeline codec states (event ∷ events) =
      let next = next_state codec (current_state event.order_id states) event in
      let rest = timeline codec (with_state event.order_id next states) events in
      (row_of event (payload_read codec event) next ∷ rest.0, rest.1)
