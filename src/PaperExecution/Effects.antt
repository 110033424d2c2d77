-- ===== src/PaperExecution/Effects.antt =====
-- What appending an event does to the ledger, and to the retained state of its order.
use text.Mathlib.TextPositions.{eq_refl}
use algo_manus.Prelude.{true, List, [], ◌∷◌, ◌++◌, ◌≡◌, ap, arith, keep-append, keep-single, str_eq}
use algo_manus.Prelude.Result.{ok, >>=-eq-ok, ok-injective}
use algo_manus.Prelude.Int.{ℤ}
use algo_manus.Prelude.Floats.{Floats}
use algo_manus.Prelude.Time.{Datetime}
use algo_manus.Prelude.Json.{Dict, Codec, RoundTrips}
use algo_manus.Risk.Intent.{OrderIntent}
use algo_manus.Paper.{PaperEventType, PaperEvent, PaperOrder}
use algo_manus.Paper.Lifecycle.{same_status_iff}
use algo_manus.PaperLedger
use algo_manus.PaperLedger.{PaperLedger, events_for}
use algo_manus.PaperExecution.Retained.{
  RetainedPaperState, event_payload, replay_step, replay, retained_state,
}
use algo_manus.PaperExecution.Events.{
  ServiceState, paper_event, append_event, require_actionable, is_actionable,
}

module _ {F T : Type 0} ⦃fl : Floats F⦄ (codec : Codec F T) where
  -- A write that returns has added its event at the end of the ledger.
  pub ledger-append_event :
      (e : PaperEventType) (i : OrderIntent F) (at : Datetime) (p : Dict F) (s : ServiceState F T)
      {s' : ServiceState F T}
      → append_event codec e i at p s ≡ (ok tt, s')
      → s'.ledger ≡ s.ledger ++ paper_event codec e i at p ∷ []
  unfolding append_event PaperLedger.append
  ledger-append_event e i at p s h = ground arith

  events_for-append :
      (ledger : PaperLedger T) (e : PaperEventType) (i : OrderIntent F) (at : Datetime) (p : Dict F)
      → events_for (ledger ++ paper_event codec e i at p ∷ []) i.order_id
        ≡ events_for ledger i.order_id ++ paper_event codec e i at p ∷ []
  unfolding events_for paper_event
  events_for-append ledger e i at p = rw keep-append (
      ap (λ (xs : List (PaperEvent T)). events_for ledger i.order_id ++ xs)
        (keep-single (λ (row : PaperEvent T). str_eq row.order_id i.order_id)
          (paper_event codec e i at p) (eq_refl i.order_id)))

  replay-append :
      (q : ℤ) (r : RetainedPaperState F) (events : List (PaperEvent T)) (event : PaperEvent T)
      {r1 r2 : RetainedPaperState F} {payload : Dict F}
      → replay codec q r events ≡ ok r1
      → event_payload codec event ≡ ok payload
      → replay_step q r1 event.event_type event.occurred_at payload ≡ ok r2
      → replay codec q r (events ++ event ∷ []) ≡ ok r2
  unfolding replay
  replay-append q r [] event h read step = rw (ok-injective h, read, step)
  replay-append q r (x ∷ events) event h read step =
      let (p1, e1, h1) = >>=-eq-ok (event_payload codec x) _ h in
      let (r', e2, h2) = >>=-eq-ok (replay_step q r x.event_type x.occurred_at p1) _ h1 in
      rw (e1, e2) (replay-append q r' events event h2 read step)

  module _ (law : RoundTrips codec) where
    event_payload-paper_event :
        (e : PaperEventType) (i : OrderIntent F) (at : Datetime) (p : Dict F)
        → event_payload codec (paper_event codec e i at p) ≡ ok p
    unfolding event_payload paper_event
    event_payload-paper_event e i at p = rw (law.loads_dumps _, event_payload)

    -- A write that returns takes the retained state of the order to the one after the event.
    pub retained-append_event :
        (e : PaperEventType) (i : OrderIntent F) (at : Datetime) (p : Dict F) (s : ServiceState F T)
        {s' : ServiceState F T} {r r' : RetainedPaperState F}
        → append_event codec e i at p s ≡ (ok tt, s')
        → retained_state codec i.quantity (events_for s.ledger i.order_id) ≡ ok r
        → replay_step i.quantity r e at p ≡ ok r'
        → retained_state codec i.quantity (events_for s'.ledger i.order_id) ≡ ok r'
    unfolding retained_state paper_event
    retained-append_event e i at p s {s'} wrote before step =
        rw (ledger-append_event e i at p s wrote, events_for-append s.ledger e i at p)
          (replay-append i.quantity _ (events_for s.ledger i.order_id) _ before
            (event_payload-paper_event e i at p) step)

  -- What `_require_actionable` has checked when it returns.
  pub require_actionable-ok :
      (order : PaperOrder F) (s : ServiceState F T) {r : RetainedPaperState F}
      {s' : ServiceState F T}
      → require_actionable codec order s ≡ (ok r, s')
      → (s' ≡ s)
        × (retained_state codec order.intent.quantity (events_for s.ledger order.intent.order_id)
            ≡ ok r)
        × (is_actionable order.status ≡ true)
        × (r.status ≡ order.status)
  unfolding require_actionable
  require_actionable-ok order s {r} h = (
    ground arith,
    ground arith,
    ground arith,
    (same_status_iff r.status order.status).0 (ground arith),
  )
