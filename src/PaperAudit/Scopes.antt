-- ===== src/PaperAudit/Scopes.antt =====
-- The scopes of a query of the audit: `_integrity_scope` and its siblings, and `_matches_*`.
use algo_manus.Prelude.{
  String, Bool, true, false, Option, none, some, List, [], ◌∷◌, map, str_eq, contains, strip,
  is_empty, ◌+++◌, not, ◌&&◌, ◌||◌, if◌then◌else◌,
}
use algo_manus.Prelude.Result.{Result, ok, err, value_error, raise_if, ◌>>◌}
use algo_manus.Prelude.Time.{Datetime, before}
use algo_manus.Paper.{PaperOrderStatus, PaperEventType, status_value, event_type_value}

-- The values of the two enumerations.
abbrev event_type_values : List String
event_type_values = map event_type_value (
    PaperEventType.order_proposed ∷ PaperEventType.risk_decision ∷ PaperEventType.order_accepted
    ∷ PaperEventType.order_submitted ∷ PaperEventType.order_working ∷ PaperEventType.order_unfilled
    ∷ PaperEventType.order_partially_filled ∷ PaperEventType.order_rejected
    ∷ PaperEventType.order_filled ∷ PaperEventType.order_cancelled
    ∷ PaperEventType.reconciliation_recorded ∷ [])

abbrev status_values : List String
status_values = map status_value (
    PaperOrderStatus.pending_risk ∷ PaperOrderStatus.risk_approved ∷ PaperOrderStatus.rejected
    ∷ PaperOrderStatus.accepted ∷ PaperOrderStatus.working ∷ PaperOrderStatus.partially_filled
    ∷ PaperOrderStatus.filled ∷ PaperOrderStatus.cancelled ∷ PaperOrderStatus.reconciled ∷ [])

-- A filter with its name: the normalised text, which must not be blank and must be known.
unfoldable pub scope_among : String → List String → String → Result String
scope_among name known normalized = do
  raise_if (is_empty normalized) (value_error (name +++ " must not be blank"))
  raise_if (not (contains normalized known)) (value_error ("unknown " +++ name))
  ok normalized

-- `str.upper`, which the standard library defines by the Unicode tables, is a parameter.
module _ (upper : String → String) where
  unfoldable pub integrity_scope : Option String → Result String
  integrity_scope none = ok "ALL"
  integrity_scope (some filter) =
      scope_among "integrity_filter" ("ALL" ∷ "VALID" ∷ "ISSUES" ∷ []) (upper (strip filter))

  unfoldable pub event_type_scope : Option String → Result String
  event_type_scope none = ok "ALL"
  event_type_scope (some filter) =
      scope_among "event_type_filter" ("ALL" ∷ event_type_values) (upper (strip filter))

  unfoldable pub lifecycle_state_scope : Option String → Result String
  lifecycle_state_scope none = ok "ALL"
  lifecycle_state_scope (some filter) =
      scope_among "lifecycle_state_filter" ("ALL" ∷ "UNPROJECTABLE" ∷ status_values)
        (upper (strip filter))

  unfoldable pub side_scope : Option String → Result String
  side_scope none = ok "ALL"
  side_scope (some filter) =
      scope_among "side_filter" ("ALL" ∷ "BUY" ∷ "SELL" ∷ []) (upper (strip filter))

-- `_instrument_scope`, with the instruments of the rows; its text is not put in upper case.
unfoldable pub instrument_scope : List String → Option String → Result String
instrument_scope instruments none = ok "ALL"
instrument_scope instruments (some filter) =
    let normalized = strip filter in
    scope_among "instrument_id_filter" ("ALL" ∷ instruments) normalized

-- `_order_scope`
unfoldable pub order_scope : Option String → String
order_scope none = "ALL"
order_scope (some order_id) = strip order_id

abbrev is_naive : Option Datetime → Bool
is_naive none = false
is_naive (some bound) = not bound.aware

abbrev ends_early : Option Datetime → Option Datetime → Bool
ends_early (some start) (some end) = before end start
ends_early _ _ = false

-- `_time_window`
unfoldable pub time_window :
    Option Datetime → Option Datetime → Result (Option Datetime × Option Datetime)
time_window start end = do
  raise_if (is_naive start) (value_error "start_time must be timezone-aware")
  raise_if (is_naive end) (value_error "end_time must be timezone-aware")
  raise_if (ends_early start end) (value_error "start_time must not be after end_time")
  ok (start, end)

-- `_matches_integrity_scope`, of the integrity status of a row.
unfoldable pub matches_integrity_scope : String → String → Bool
matches_integrity_scope integrity_status scope =
    if str_eq scope "ALL"
    then true
    else if str_eq scope "VALID"
    then str_eq integrity_status "VALID"
    else not (str_eq integrity_status "VALID")

-- `_matches_event_type_scope`, `_matches_lifecycle_state_scope` and `_matches_instrument_scope`.
unfoldable pub matches_scope : String → String → Bool
matches_scope value scope = str_eq scope "ALL" || str_eq value scope

-- `_matches_side_scope`
unfoldable pub matches_side_scope : Option String → String → Bool
matches_side_scope side scope =
    str_eq scope "ALL" || elim side [ none ↦ false | some value ↦ str_eq value scope ]

-- `_matches_time_window`
unfoldable pub matches_time_window : Datetime → Option Datetime × Option Datetime → Bool
matches_time_window occurred_at (start, end) =
    elim start [ none ↦ true | some t ↦ not (before occurred_at t) ]
    && elim end [ none ↦ true | some t ↦ not (before t occurred_at) ]

-- `LocalPaperOperationAuditScopePreset` and the table of presets.
pub record ScopePreset : Type 0 where
  pub identifier : String
  pub label : String
  pub integrity_filter : String

abbrev scope_presets : List ScopePreset
scope_presets =
    record { identifier = "ALL"; label = "All retained events"; integrity_filter = "ALL" }
    ∷ record { identifier = "VALID"; label = "Valid interpretations"; integrity_filter = "VALID" }
    ∷ record { identifier = "ISSUES"; label = "Integrity issues"; integrity_filter = "ISSUES" }
    ∷ []

abbrev preset_among : String → List ScopePreset → Result ScopePreset
preset_among normalized [] = err (value_error "unknown local audit scope preset")
preset_among normalized (preset ∷ presets) =
    if str_eq preset.identifier normalized then ok preset else preset_among normalized presets

-- `scope_preset`
unfoldable pub scope_preset : (String → String) → String → Result ScopePreset
scope_preset upper preset_id = do
  let normalized = upper (strip preset_id)
  raise_if (is_empty normalized) (value_error "preset_id must not be blank")
  preset_among normalized scope_presets
