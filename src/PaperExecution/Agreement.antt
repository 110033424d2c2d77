-- ===== src/PaperExecution/Agreement.antt =====
-- The order that a method returns is the order that a replay of the ledger gives.
use algo_manus.Prelude.{[], ◌∷◌, ◌++◌, ◌≡◌, sym, subst}
use algo_manus.Prelude.Result.{ok}
use algo_manus.Prelude.Floats.{Floats}
use algo_manus.Prelude.Time.{Datetime}
use algo_manus.Prelude.Json.{Dict, Codec, RoundTrips}
use algo_manus.Risk.Intent.{OrderIntent}
use algo_manus.Paper.{PaperEventType, PaperOrder}
use algo_manus.PaperLedger.{events_for}
use algo_manus.PaperExecution.Retained.{RetainedPaperState, replay_step, retained_state}
use algo_manus.PaperExecution.Events.{ServiceState, paper_event, append_event}
use algo_manus.PaperExecution.Effects.{ledger-append_event, retained-append_event}

module _ {F : Type 0} where
  -- The order shows the retained state.
  pub record Agrees (o : PaperOrder F) (r : RetainedPaperState F) : Type 0 where
    pub status : o.status ≡ r.status
    pub filled_quantity : o.filled_quantity ≡ r.filled_quantity
    pub filled_at : o.filled_at ≡ r.filled_at
    pub fill_price : o.fill_price ≡ r.fill_price
    pub disposition : o.reconciliation_disposition ≡ r.reconciliation_disposition

module _ {F T : Type 0} ⦃fl : Floats F⦄ (codec : Codec F T) where
  -- The events of the order in the ledger replay to what the order shows.
  pub record Replays (o : PaperOrder F) (s : ServiceState F T) : Type 0 where
    pub retained : RetainedPaperState F
    pub replayed :
        retained_state codec o.intent.quantity (events_for s.ledger o.intent.order_id) ≡ ok retained
    pub agrees : Agrees o retained

  -- What a method does when it returns `o'`: one more event in the ledger, from which the returned
  -- order can be replayed.
  pub record Recorded (e : PaperEventType) (order : PaperOrder F) (at : Datetime) (payload : Dict F)
      (s : ServiceState F T) (o' : PaperOrder F) (s' : ServiceState F T) : Type 0 where
    pub same_intent : o'.intent ≡ order.intent
    pub one_event : s'.ledger ≡ s.ledger ++ paper_event codec e order.intent at payload ∷ []
    pub replays : Replays o' s'

  module _ (law : RoundTrips codec) where
    -- A write of an event that the replay accepts records the order that shows the new state.
    pub finish :
        (e : PaperEventType) (order o' : PaperOrder F) (at : Datetime) (payload : Dict F)
        (s s1 s' : ServiceState F T) (r r' : RetainedPaperState F)
        → s1 ≡ s
        → retained_state codec order.intent.quantity (events_for s.ledger order.intent.order_id)
          ≡ ok r
        → append_event codec e order.intent at payload s1 ≡ (ok tt, s')
        → replay_step order.intent.quantity r e at payload ≡ ok r'
        → o'.intent ≡ order.intent
        → Agrees o' r'
        → Recorded e order at payload s o' s'
    finish e order o' at payload s s1 s' r r' unchanged before wrote_after step same agrees =
        let wrote : append_event codec e order.intent at payload s ≡ (ok tt, s') =
          subst (λ x. append_event codec e order.intent at payload x ≡ (ok tt, s')) unchanged
            wrote_after in
        record {
          same_intent = same;
          one_event = ledger-append_event codec e order.intent at payload s wrote;
          replays = record {
            retained = r';
            replayed =
                subst
                  (λ (i : OrderIntent F).
                    retained_state codec i.quantity (events_for s'.ledger i.order_id) ≡ ok r')
                  (sym same)
                  (retained-append_event codec law e order.intent at payload s wrote before step);
            agrees = agrees;
          };
        }
