-- ===== src/PaperExecution/Retained.antt =====
-- `PaperExecutionService._retained_state`: the state of one order, replayed from its events.
use algo_manus.Prelude.{
  String, Bool, true, false, Option, none, some, List, [], ◌∷◌, not, ◌&&◌, ◌||◌, str_eq,
  if◌then◌else◌,
}
use algo_manus.Prelude.Int.{ℤ, pos, ◌+ℤ◌, ltb_ℤ, leb_ℤ, eqb_ℤ}
use algo_manus.Prelude.Result.{Result, ok, err, value_error, attribute_error, ◌>>=◌}
use algo_manus.Prelude.Floats.{Floats, zero_f, ◌≼◌}
use algo_manus.Prelude.Time.{Datetime}
use algo_manus.Prelude.Json.{
  Dict, Codec, get, as_bool, as_int, as_float, as_text, as_object, is_null,
}
use algo_manus.Vocabulary.{ReconciliationDisposition}
use algo_manus.Paper.{PaperOrderStatus, PaperEventType, PaperEvent, apply}

-- `_RetainedPaperState`, with the local variable `risk_seen` of the replay.
pub record RetainedPaperState (F : Type 0) : Type 0 where
  pub status : PaperOrderStatus
  pub filled_quantity : ℤ
  pub filled_at : Option Datetime
  pub fill_price : Option F
  pub reconciliation_disposition : Option ReconciliationDisposition
  pub risk_seen : Bool

abbrev pub is_fill : PaperEventType → Bool
is_fill PaperEventType.order_partially_filled = true
is_fill PaperEventType.order_filled = true
is_fill _ = false

abbrev pub is_order_filled : PaperEventType → Bool
is_order_filled PaperEventType.order_filled = true
is_order_filled _ = false

abbrev pub is_risk_decision : PaperEventType → Bool
is_risk_decision PaperEventType.risk_decision = true
is_risk_decision _ = false

abbrev pub is_order_rejected : PaperEventType → Bool
is_order_rejected PaperEventType.order_rejected = true
is_order_rejected _ = false

abbrev pub is_reconciliation : PaperEventType → Bool
is_reconciliation PaperEventType.reconciliation_recorded = true
is_reconciliation _ = false

-- `ReconciliationDisposition(value)`; `none` for the `ValueError`.
unfoldable pub parse_disposition : Option String → Option ReconciliationDisposition
parse_disposition none = none
parse_disposition (some value) =
    if str_eq value "MATCHED"
    then some ReconciliationDisposition.matched
    else if str_eq value "CORRECTED"
    then some ReconciliationDisposition.corrected
    else if str_eq value "UNRESOLVED"
    then some ReconciliationDisposition.unresolved
    else none

module _ {F T : Type 0} where
  -- `_event_payload`: `none` of the codec is a `JSONDecodeError`. A text that is JSON and no object
  -- has no `get`, which Python reports as an `AttributeError`.
  unfoldable pub event_payload : Codec F T → PaperEvent T → Result (Dict F)
  event_payload c event = elim (c.loads event.payload) [
    | none ↦ err (value_error "stored paper lifecycle is invalid; event payload is malformed")
    | some j ↦ elim (as_object j) [
      | none ↦ err (attribute_error "the loaded JSON value has no attribute 'get'")
      | some envelope ↦ elim (as_object (get envelope "payload")) [
        | none ↦ err (value_error "stored paper lifecycle is invalid; event payload is malformed")
        | some payload ↦ ok payload
      ]
    ]
  ]

module _ {F : Type 0} where
  -- The state in which the replay begins.
  abbrev pub initial : RetainedPaperState F
  initial = record {
    status = PaperOrderStatus.pending_risk;
    filled_quantity = pos 0;
    filled_at = none;
    fill_price = none;
    reconciliation_disposition = none;
    risk_seen = false;
  }

  -- The risk part of a round: the value of `risk_allowed`, and `risk_seen` afterwards.
  unfoldable pub risk_part : PaperEventType → Dict F → Bool → Result (Option Bool × Bool)
  risk_part PaperEventType.risk_decision payload risk_seen =
      elim (as_bool (get payload "allowed")) [
        | none ↦
            err
              (value_error "stored paper lifecycle is invalid; risk decision evidence is malformed")
        | some allowed ↦ ok (some allowed, true)
      ]
  risk_part PaperEventType.order_rejected payload false =
      err (value_error "stored paper lifecycle is invalid; risk evidence is missing")
  risk_part _ payload risk_seen = ok (none, risk_seen)

  -- The cumulative quantity of a fill event: for ORDER_FILLED a missing one is the whole order.
  abbrev pub cumulative_of : PaperEventType → Dict F → ℤ → Option ℤ
  cumulative_of event_type payload order_quantity =
      let value = get payload "cumulative_filled_quantity" in
      if is_null value && is_order_filled event_type then some order_quantity else as_int value

module _ {F : Type 0} ⦃fl : Floats F⦄ where
  -- The tests on the three facts of a fill event, and the fill.
  unfoldable pub fill_with :
      ℤ
      → RetainedPaperState F
      → Datetime
      → Option ℤ
      → Option ℤ
      → Option F
      → Result (RetainedPaperState F)
  fill_with order_quantity r at none cumulative price =
      err (value_error "stored paper lifecycle is invalid; fill quantity is malformed")
  fill_with order_quantity r at (some quantity) cumulative price =
      if leb_ℤ quantity (pos 0)
      then err (value_error "stored paper lifecycle is invalid; fill quantity is malformed")
      else elim cumulative [
        | none ↦
            err (
              value_error
                "stored paper lifecycle is invalid; cumulative fill evidence is malformed")
        | some total ↦
            if not (eqb_ℤ total (r.filled_quantity +ℤ quantity)) || ltb_ℤ order_quantity total
            then err (
                value_error
                  "stored paper lifecycle is invalid; cumulative fill evidence is malformed")
            else elim price [
              | none ↦
                  err (value_error "stored paper lifecycle is invalid; fill price is malformed")
              | some fill_price ↦
                  if fill_price ≼ zero_f
                  then err
                      (value_error "stored paper lifecycle is invalid; fill price is malformed")
                  else ok (record r {
                    filled_quantity = total;
                    filled_at = some at;
                    fill_price = some fill_price;
                  })
            ]
      ]

  -- The fill part of a round.
  unfoldable pub fill_part :
      ℤ → RetainedPaperState F → PaperEventType → Datetime → Dict F → Result (RetainedPaperState F)
  fill_part order_quantity r event_type occurred_at payload =
      fill_with order_quantity r occurred_at (as_int (get payload "quantity"))
        (cumulative_of event_type payload order_quantity) (as_float (get payload "fill_price"))

  -- The part of a round that moves the fills or the disposition, by the type of the event.
  unfoldable pub evidence_part :
      ℤ → RetainedPaperState F → PaperEventType → Datetime → Dict F → Result (RetainedPaperState F)
  evidence_part q r PaperEventType.order_partially_filled at payload =
      fill_part q r PaperEventType.order_partially_filled at payload
  evidence_part q r PaperEventType.order_filled at payload =
      fill_part q r PaperEventType.order_filled at payload
  evidence_part q r PaperEventType.reconciliation_recorded at payload =
      elim (parse_disposition (as_text (get payload "disposition"))) [
        | none ↦
            err (
              value_error "stored paper lifecycle is invalid; reconciliation evidence is malformed")
        | some disposition ↦ ok (record r { reconciliation_disposition = some disposition })
      ]
  evidence_part q r _ at payload = ok r

  -- One round of the loop in `_retained_state`, with the payload read.
  unfoldable pub replay_step :
      ℤ → RetainedPaperState F → PaperEventType → Datetime → Dict F → Result (RetainedPaperState F)
  replay_step order_quantity r event_type occurred_at payload = do
    (risk_allowed, risk_seen) ← risk_part event_type payload r.risk_seen
    elim (apply r.status event_type risk_allowed) [
      | none ↦ err (value_error "stored paper lifecycle is invalid; refusing local transition")
      | some next_status ↦ do
        r' ←
            evidence_part order_quantity (record r { risk_seen = risk_seen }) event_type occurred_at
              payload
        ok (record r' { status = next_status })
    ]

  -- The loop of `_retained_state`.
  unfoldable pub replay :
      {T : Type 0}
      → Codec F T
      → ℤ
      → RetainedPaperState F
      → List (PaperEvent T)
      → Result (RetainedPaperState F)
  replay c order_quantity r [] = ok r
  replay c order_quantity r (event ∷ events) = do
    payload ← event_payload c event
    r' ← replay_step order_quantity r event.event_type event.occurred_at payload
    replay c order_quantity r' events

  -- `_retained_state` of the order with the given quantity, from the events of its ID.
  unfoldable pub retained_state :
      {T : Type 0} → Codec F T → ℤ → List (PaperEvent T) → Result (RetainedPaperState F)
  unfolding replay
  retained_state c order_quantity events = replay c order_quantity initial events
