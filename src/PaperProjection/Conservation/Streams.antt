-- ===== src/PaperProjection/Conservation/Streams.antt =====
-- The balance after any stream of events.
use algo_manus.Prelude.{
  String, Option, none, some, List, [], ◌∷◌, ◌≡◌, refl, sym, ap, ◌∙◌, arith, subst, str_eq,
  Bool-cases, inl, inr,
}
use algo_manus.Prelude.Int.{ℤ, pos, ◌+ℤ◌, ◌-ℤ◌, +ℤ_cancel, int_laws}
use algo_manus.Prelude.Result.{ok, >>=-eq-ok, ok-injective}
use algo_manus.Prelude.Floats.{Floats}
use algo_manus.Prelude.Json.{Dict, Codec}
use algo_manus.Paper.{PaperEvent}
use algo_manus.PaperProjection.State.{ProjectedOrder, Portfolio, find, assign, found_or, new_order}
use algo_manus.PaperProjection.Dicts.{
  sum_of, sum_of-assign, sum_of-assign_new, assign-All, find-All,
}
use algo_manus.PaperProjection.Evidence.{payload_of}
use algo_manus.PaperProjection.Round.{Change}
use algo_manus.PaperProjection.Replay.{
  initial, settle_round, change_of, order_of, round, replay_events,
}
use algo_manus.PaperProjection.Conservation.{signed_fills, held, IsConsistent, IsBalanced}
use algo_manus.PaperProjection.Conservation.Keeping.{Kept}
use algo_manus.PaperProjection.Conservation.Branches.{refused-Kept}
use algo_manus.PaperProjection.Conservation.Rounds.{project-Kept}

-- The positions and the sums of the fills move together.
conserved_by : (h h' t t' a b : ℤ) → h ≡ t → h' +ℤ a ≡ h +ℤ b → t' +ℤ a ≡ t +ℤ b → h' ≡ t'
conserved_by h h' t t' a b same left right =
    sym (+ℤ_cancel h' a)
    ∙ ap (λ x. x -ℤ a) (left ∙ ap (λ x. x +ℤ b) same ∙ sym right)
    ∙ +ℤ_cancel t' a

module _ {F : Type 0} where
  new_order-IsConsistent : (i : String) → IsConsistent (new_order {F = F} i)
  new_order-IsConsistent i = record {
    lower = omega arith;
    upper = λ q e. cc;
    no_side = λ e. refl;
    no_quantity = λ e. refl;
    unfilled = λ e. refl;
    complete = λ e. cc;
  }

module _ {F T : Type 0} ⦃fl : Floats F⦄ where
  -- The order of the event: the one that was found, or a new one.
  IsFound : Portfolio F → PaperEvent T → ProjectedOrder F → Type 0
  IsFound s event o =
      IsConsistent o
      × ((c : ProjectedOrder F) (j : String)
          → sum_of (signed_fills j) (assign event.order_id c s.orders) +ℤ signed_fills j o
            ≡ sum_of (signed_fills j) s.orders +ℤ signed_fills j c)

  order_of-IsFound :
      (s : Portfolio F) (event : PaperEvent T) → IsBalanced s → IsFound s event (order_of s event)
  unfolding IsFound
  order_of-IsFound s event v = go (find event.order_id s.orders) refl
    where
      unsigned : (j : String) → signed_fills j (new_order {F = F} event.instrument_id) ≡ pos 0
      unsigned j = ground arith

      go :
          (found : Option (ProjectedOrder F))
          → find event.order_id s.orders ≡ found
          → IsFound s event (found_or (new_order event.instrument_id) found)
      go none e = (
        new_order-IsConsistent event.instrument_id,
        λ c j.
            rw (unsigned j, sum_of-assign_new (signed_fills j) event.order_id c s.orders e)
              (omega int_laws),
      )
      go (some o) e = (
        find-All IsConsistent event.order_id s.orders v.orders e,
        λ c j. sum_of-assign (signed_fills j) event.order_id c o s.orders e,
      )

  change_of-Kept :
      (s : Portfolio F) (event : PaperEvent T) (payload : Dict F) (o : ProjectedOrder F)
      → IsBalanced s
      → IsConsistent o
      → Kept o s.positions (change_of s event o payload)
  change_of-Kept s event payload o v c =
      elim (Bool-cases (str_eq o.instrument_id event.instrument_id)) [
        | inl e ↦
            rw e
              (project-Kept o s.positions event.event_type event.occurred_at payload c v.long_only)
        | inr e ↦ rw e (refused-Kept o s.positions c v.long_only)
      ]

  settle_round-IsBalanced :
      (s : Portfolio F) (event : PaperEvent T) (o : ProjectedOrder F) (c : Change F)
      → IsBalanced s
      → IsFound s event o
      → Kept o s.positions c
      → IsBalanced (settle_round s event c)
  unfolding IsFound
  settle_round-IsBalanced s event o c v found k = record {
    orders = assign-All IsConsistent event.order_id c.order s.orders v.orders k.consistent;
    distinct = k.distinct v.distinct;
    long_only = k.long_only;
    conserved = λ j.
        conserved_by (held j s.positions) (held j c.positions) (sum_of (signed_fills j) s.orders)
          (sum_of (signed_fills j) (assign event.order_id c.order s.orders)) (signed_fills j o)
          (signed_fills j c.order) (v.conserved j) (k.balance j) (found.1 c.order j);
  }

  round-IsBalanced :
      (s : Portfolio F) (event : PaperEvent T) (payload : Option (Dict F))
      → IsBalanced s
      → IsBalanced (round s event payload)
  unfolding round IsFound
  round-IsBalanced s event none v = record {
    orders = v.orders;
    distinct = v.distinct;
    long_only = v.long_only;
    conserved = v.conserved;
  }
  round-IsBalanced s event (some payload) v =
      let found = order_of-IsFound s event v in
      settle_round-IsBalanced s event (order_of s event)
        (change_of s event (order_of s event) payload) v found
        (change_of-Kept s event payload (order_of s event) v found.0)

  -- Whatever events a ledger holds, in whatever order: after the loop of `replay`, begun with any
  -- portfolio in balance, no position is short, the position in each instrument is the sum of the
  -- signed fills of its orders (bought quantities less sold ones), and each order has filled
  -- nothing before its first fill, never more than its quantity, and all of it when it is FILLED.
  pub replay_events-IsBalanced :
      (codec : Codec F T) (s : Portfolio F) (events : List (PaperEvent T)) {s' : Portfolio F}
      → IsBalanced s
      → replay_events codec s events ≡ ok s'
      → IsBalanced s'
  unfolding replay_events
  replay_events-IsBalanced codec s [] v h = subst IsBalanced (ok-injective h) v
  replay_events-IsBalanced codec s (event ∷ events) v h =
      let (payload, _, h1) = >>=-eq-ok (payload_of codec event) _ h in
      replay_events-IsBalanced codec (round s event payload) events
        (round-IsBalanced s event payload v) h1

module _ {F : Type 0} ⦃fl : Floats F⦄ where
  pub initial-IsBalanced : (starting_cash : F) → IsBalanced (initial starting_cash)
  initial-IsBalanced starting_cash = record {
    orders = tt;
    distinct = tt;
    long_only = λ j. omega arith;
    conserved = λ j. refl;
  }
