-- ===== src/PaperAudit/Agreement.antt =====
-- The audit and the projector on the same events.
use algo_manus.Prelude.{
  String, Bool, true, Option, none, some, List, [], ◌∷◌, str_eq, All, ◌≡◌, subst, refl, sym, ap,
  ◌∙◌, arith, Bool-cases, Option-cases, inl, inr,
}
use algo_manus.Prelude.Result.{ok, ok-injective, >>=-eq-ok}
use algo_manus.Prelude.Floats.{Floats}
use algo_manus.Prelude.Time.{Datetime}
use algo_manus.Prelude.Json.{Dict, Codec}
use algo_manus.Paper.{PaperOrderStatus, PaperEventType, PaperEvent, apply}
use algo_manus.PaperProjection.State.{
  Position, ProjectedOrder, Portfolio, find, assign, found_or, new_order, invalid,
}
use algo_manus.PaperProjection.Evidence.{payload_of}
use algo_manus.PaperProjection.Round.{Change, by_type, risk_part, stamp, project}
use algo_manus.PaperProjection.Replay.{initial, order_of, change_of, round, replay_events}
use algo_manus.PaperAudit.Fields.{payload_read, boolean_field}
use algo_manus.PaperAudit.Timeline.{
  AuditRow, States, integrity_of, with_state, current_state, risk_allowed, next_state, row_of,
  timeline,
}

module _ {F : Type 0} ⦃fl : Floats F⦄ where
  -- A round that is valid leaves the order in the status that the lifecycle gives.
  by_type-status :
      (order : ProjectedOrder F) (positions : List (String × Position F)) (next : PaperOrderStatus)
      (e : PaperEventType) (at : Datetime) (payload : Dict F)
      → (by_type order positions next e at payload).valid ≡ true
      → (by_type order positions next e at payload).order.status ≡ next
  unfolding by_type stamp
  by_type-status order positions next PaperEventType.order_proposed at payload v = ground arith
  by_type-status order positions next _ at payload v = ground arith

  risk_part-allowed :
      (order : ProjectedOrder F) (e : PaperEventType) (payload : Dict F) {seen : ProjectedOrder F}
      {allowed : Option Bool}
      → risk_part order e payload ≡ some (seen, allowed)
      → (seen.status ≡ order.status) × (allowed ≡ risk_allowed e payload)
  unfolding risk_part boolean_field
  risk_part-allowed order PaperEventType.risk_decision payload h = ground arith
  risk_part-allowed order _ payload h = ground arith

  project-status :
      (order : ProjectedOrder F) (positions : List (String × Position F)) (e : PaperEventType)
      (at : Datetime) (payload : Dict F)
      → (project order positions e at payload).valid ≡ true
      → apply order.status e (risk_allowed e payload)
        ≡ some (project order positions e at payload).order.status
  unfolding project
  project-status order positions e at payload v = elim (Option-cases (risk_part order e payload)) [
    | inl refused ↦ ground arith
    | inr ((seen, allowed), read) ↦ elim (Option-cases (apply seen.status e allowed)) [
      | inl stuck ↦ ground arith
      | inr (next, step) ↦
          let facts = risk_part-allowed order e payload read in
          let stepped : apply order.status e (risk_allowed e payload) ≡ some next =
            rw (sym facts.0, sym facts.1) step in
          rw (project, read, step)
            (stepped
              ∙ ap some (
                  sym (
                    by_type-status seen positions next e at payload
                      (rw (project, read, step) at v))))
    ]
  ]

-- `_invalid` leaves an event behind.
invalid-some : (event_id : String) (events : List String) → ¬ (invalid event_id events ≡ [])
invalid-some event_id [] h = cc
invalid-some event_id (x ∷ events) h = ground arith

module _ {F : Type 0} where
  -- The statuses of the orders of a portfolio.
  abbrev pub statuses : List (String × ProjectedOrder F) → States
  statuses [] = []
  statuses ((order_id, order) ∷ orders) = (order_id, order.status) ∷ statuses orders

  current_state-statuses :
      (k instrument_id : String) (orders : List (String × ProjectedOrder F))
      → current_state k (statuses orders)
        ≡ (found_or (new_order instrument_id) (find k orders)).status
  current_state-statuses k instrument_id [] = refl
  current_state-statuses k instrument_id ((j, order) ∷ orders) = elim (Bool-cases (str_eq j k)) [
    | inl e ↦ rw e refl
    | inr e ↦ rw e (current_state-statuses k instrument_id orders)
  ]

  assign-statuses :
      (k : String) (order : ProjectedOrder F) (orders : List (String × ProjectedOrder F))
      → assign k order.status (statuses orders) ≡ statuses (assign k order orders)
  assign-statuses k order [] = refl
  assign-statuses k order ((j, other) ∷ orders) = elim (Bool-cases (str_eq j k)) [
    | inl e ↦ rw e refl
    | inr e ↦ rw e (ap (λ rest. (j, other.status) ∷ rest) (assign-statuses k order orders))
  ]

module _ {F T : Type 0} where
  -- The audit reads the payload that the projector reads.
  payload_of-read :
      (codec : Codec F T) (event : PaperEvent T) {payload : Dict F}
      → payload_of codec event ≡ ok (some payload)
      → payload_read codec event ≡ (payload, true)
  unfolding payload_of payload_read
  payload_of-read codec event h = ground arith

module _ {F T : Type 0} ⦃fl : Floats F⦄ where
  abbrev change_in : Portfolio F → PaperEvent T → Dict F → Change F
  change_in s event payload = change_of s event (order_of s event) payload

  change_of-status :
      (s : Portfolio F) (event : PaperEvent T) (order : ProjectedOrder F) (payload : Dict F)
      → (change_of s event order payload).valid ≡ true
      → apply order.status event.event_type (risk_allowed event.event_type payload)
        ≡ some (change_of s event order payload).order.status
  change_of-status s event order payload v =
      elim (Bool-cases (str_eq order.instrument_id event.instrument_id)) [
        | inl same ↦ rw same (
            project-status order s.positions event.event_type event.occurred_at payload
              (rw same at v))
        | inr other ↦ ground arith
      ]

  -- A round after which no event is unprojectable was valid, and found none before.
  round-valid :
      (s : Portfolio F) (event : PaperEvent T) (payload : Dict F)
      → (round s event (some payload)).unprojectable ≡ []
      → ((change_in s event payload).valid ≡ true) × (s.unprojectable ≡ [])
  unfolding round
  round-valid s event payload h = elim (Bool-cases (change_in s event payload).valid) [
    | inl v ↦ (v, rw v at h)
    | inr v ↦ absurd (invalid-some event.event_id s.unprojectable (rw v at h))
  ]

module _ {F T : Type 0} ⦃fl : Floats F⦄ where
  round-clean :
      (s : Portfolio F) (event : PaperEvent T) (read : Option (Dict F))
      → (round s event read).unprojectable ≡ []
      → (payload : Dict F) × (read ≡ some payload)
        × ((change_in s event payload).valid ≡ true)
        × (s.unprojectable ≡ [])
  unfolding round
  round-clean s event none h = absurd (invalid-some event.event_id s.unprojectable h)
  round-clean s event (some payload) h =
      let facts = round-valid s event payload h in (payload, refl, facts.0, facts.1)

module _ {F T : Type 0} ⦃fl : Floats F⦄ (codec : Codec F T) where
  unprojectable_before :
      (s : Portfolio F) (events : List (PaperEvent T)) {t : Portfolio F}
      → replay_events codec s events ≡ ok t
      → t.unprojectable ≡ []
      → s.unprojectable ≡ []
  unfolding replay_events
  unprojectable_before s [] h clean = ground arith
  unprojectable_before s (event ∷ events) {t} h clean =
      let (read, e, rest) =
        >>=-eq-ok (payload_of codec event) (λ p. replay_events codec (round s event p) events) h in
      let facts =
        round-clean s event read (unprojectable_before (round s event read) events rest clean) in
      facts.3

  -- Where the projector can project every event of a stream, the audit finds every event valid, and
  -- each order in the status in which the projector has it.
  Agrees : Portfolio F → List (PaperEvent T) → Portfolio F → Type 0
  Agrees s events t =
      let shown = timeline codec (statuses s.orders) events in
      All (λ (row : AuditRow F). row.integrity_status ≡ "VALID") shown.0
      × (shown.1 ≡ statuses t.orders)

  -- The state that the audit gives an order is the one after the projector's round.
  next_state-status :
      (s : Portfolio F) (event : PaperEvent T) (payload : Dict F)
      → payload_of codec event ≡ ok (some payload)
      → (change_in s event payload).valid ≡ true
      → next_state codec (current_state event.order_id (statuses s.orders)) event
        ≡ some (change_in s event payload).order.status
  unfolding next_state
  next_state-status s event payload e v =
      rw
        (
          current_state-statuses event.order_id event.instrument_id s.orders,
          payload_of-read codec event e,
        )
        (change_of-status s event (order_of s event) payload v)

  row_of-valid :
      (event : PaperEvent T) (payload : Dict F) (status : PaperOrderStatus)
      → (row_of event (payload, true) (some status)).integrity_status ≡ "VALID"
  unfolding row_of integrity_of
  row_of-valid event payload status = refl

  states_after :
      (s : Portfolio F) (event : PaperEvent T) (payload : Dict F)
      → with_state event.order_id
          (some (change_in s event payload).order.status)
          (statuses s.orders)
        ≡ statuses (round s event (some payload)).orders
  unfolding round
  states_after s event payload =
      assign-statuses event.order_id (change_in s event payload).order s.orders

  timeline-Agrees :
      (s : Portfolio F) (events : List (PaperEvent T)) {t : Portfolio F}
      → replay_events codec s events ≡ ok t
      → t.unprojectable ≡ []
      → Agrees s events t
  unfolding replay_events timeline Agrees
  timeline-Agrees s [] {t} h clean =
      (tt, ap (λ (p : Portfolio F). statuses p.orders) (ok-injective h))
  timeline-Agrees s (event ∷ events) {t} h clean =
      let (read, e, rest) =
        >>=-eq-ok (payload_of codec event) (λ p. replay_events codec (round s event p) events) h in
      let (payload, is_read, v, _) =
        round-clean s event read (unprojectable_before (round s event read) events rest clean) in
      let read_as : payload_of codec event ≡ ok (some payload) = e ∙ ap ok is_read in
      let later =
        timeline-Agrees (round s event (some payload)) events
          (subst (λ p. replay_events codec (round s event p) events ≡ ok t) is_read rest) clean in
      rw
        (
          next_state-status s event payload read_as v,
          payload_of-read codec event read_as,
          states_after s event payload,
        )
        ((row_of-valid event payload _, later.0), later.1)

  -- Where the projector reads a ledger without an unprojectable event, the audit shows every event
  -- as valid, and at the end has each order in the status that the projector has it in.
  pub replay_events-audited :
      (cash : F) (events : List (PaperEvent T)) {t : Portfolio F}
      → replay_events codec (initial cash) events ≡ ok t
      → t.unprojectable ≡ []
      → All (λ (row : AuditRow F). row.integrity_status ≡ "VALID") (timeline codec [] events).0
        × ((timeline codec [] events).1 ≡ statuses t.orders)
  unfolding Agrees
  replay_events-audited cash events h clean = timeline-Agrees (initial cash) events h clean
