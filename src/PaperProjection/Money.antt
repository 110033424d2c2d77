-- ===== src/PaperProjection/Money.antt =====
-- When a round of the replay moves money, and by how much.
use algo_manus.Prelude.{
  String, Bool, true, false, Option, none, some, List, ◌≡◌, refl, sym, eq_iff, ◌∙◌, arith, subst,
  Bool-cases, Option-cases, inl, inr, ◌⊎◌, str_eq, not, if◌then◌else◌,
}
use algo_manus.Prelude.Int.{ℤ, neg_ℤ, ltb_ℤ}
use algo_manus.Prelude.Floats.{Floats, float, zero_f, ◌⊕◌, ◌⊖◌, ◌⊗◌, ◌≼◌}
use algo_manus.Prelude.Time.{Datetime}
use algo_manus.Prelude.Json.{Dict, get, as_float}
use algo_manus.Risk.Intent.{OrderSide}
use algo_manus.Paper.{PaperOrderStatus, PaperEventType, PaperEvent, apply}
use algo_manus.PaperProjection.State.{
  Position, ProjectedOrder, Portfolio, find, found_or, new_position,
}
use algo_manus.PaperProjection.Evidence.{side_of, quantity_of}
use algo_manus.PaperProjection.Round.{
  Change, refused, is_fill, not_partial, not_complete, cumulative_of, settle, disagrees, check_fill,
  fill_facts, apply_fill, stamp, by_type, risk_part, project,
}
use algo_manus.PaperProjection.Replay.{order_of, settle_round, change_of, round}

module _ {F : Type 0} ⦃fl : Floats F⦄ where
  -- The change of the cash by a trade.
  abbrev pub cash_of : OrderSide → ℤ → F → F
  cash_of OrderSide.buy quantity price = float (neg_ℤ quantity) ⊗ price
  cash_of OrderSide.sell quantity price = float quantity ⊗ price

  -- The change of the realised result by a trade at this average entry price.
  abbrev pub gain_of : OrderSide → ℤ → F → F → F
  gain_of OrderSide.buy quantity price average = zero_f
  gain_of OrderSide.sell quantity price average = float quantity ⊗ (price ⊖ average)

  -- A position covers a sale of this quantity.
  abbrev pub covers : OrderSide → Position F → ℤ → Bool
  covers OrderSide.buy position quantity = true
  covers OrderSide.sell position quantity = not (ltb_ℤ position.quantity quantity)

  -- The payload states a trade at a price above zero that the position covers, and the change of
  -- the money is that of the trade.
  pub record Trade (positions : List (String × Position F)) (instrument_id : String)
      (payload : Dict F) (moved : F × F) : Type 0 where
    pub side : OrderSide
    pub quantity : ℤ
    pub price : F
    pub side_read : side_of payload ≡ some side
    pub quantity_read : quantity_of payload ≡ some quantity
    pub price_read : as_float (get payload "fill_price") ≡ some price
    pub priced : (price ≼ zero_f) ≡ false
    pub covered : covers side (found_or new_position (find instrument_id positions)) quantity ≡ true
    pub cash : moved.0 ≡ cash_of side quantity price
    pub gain :
        moved.1
        ≡ gain_of side quantity price
            (found_or new_position (find instrument_id positions)).average_entry_price

  module _ (o : ProjectedOrder F) (positions : List (String × Position F)) where
    settle-moved :
        (p : Position F) (side : OrderSide) (q c : ℤ) (price : F) {m : F × F}
        → (settle o positions p side q c price).moved ≡ some m
        → (covers side p q ≡ true)
          × (m.0 ≡ cash_of side q price)
          × (m.1 ≡ gain_of side q price p.average_entry_price)
    unfolding settle
    settle-moved p OrderSide.buy q c price h = (refl, cc, cc)
    settle-moved p OrderSide.sell q c price h = ground arith

    check_fill-moved :
        (completes : Bool) (os side : OrderSide) (oq q c : ℤ) (price : F) {m : F × F}
        → (check_fill o positions completes os oq side q c price).moved ≡ some m
        → (price ≼ zero_f ≡ false)
          × ((settle o positions
                (found_or new_position (find o.instrument_id positions))
                side
                q
                c
                price).moved
              ≡ some m)
    unfolding check_fill
    check_fill-moved completes os side oq q c price {m} h =
        go (disagrees o os oq side q c price) (not_partial completes c oq)
          (not_complete completes c oq) refl h
      where
        go :
            (agree partly fully : Bool)
            → disagrees o os oq side q c price ≡ agree
            → (if agree
                then refused o positions
                else if partly
                then refused o positions
                else if fully
                then refused o positions
                else settle o positions
                    (found_or new_position (find o.instrument_id positions))
                    side
                    q
                    c
                    price).moved
              ≡ some m
            → (price ≼ zero_f ≡ false)
              × ((settle o positions
                    (found_or new_position (find o.instrument_id positions))
                    side
                    q
                    c
                    price).moved
                  ≡ some m)
        go true partly fully e t = cc
        go false true fully e t = cc
        go false false true e t = cc
        go false false false e t = (ground arith, t)

    apply_fill-Trade :
        (completes : Bool) (payload : Dict F) {m : F × F}
        → (apply_fill o positions completes payload).moved ≡ some m
        → Trade positions o.instrument_id payload m
    unfolding apply_fill fill_facts
    apply_fill-Trade completes payload {m} =
        read o.side o.quantity (side_of payload) (quantity_of payload)
          (cumulative_of completes payload o.quantity) (as_float (get payload "fill_price")) refl
          refl refl
      where
        read :
            (os : Option OrderSide) (oq : Option ℤ) (side : Option OrderSide) (q c : Option ℤ)
            (price : Option F)
            → side_of payload ≡ side
            → quantity_of payload ≡ q
            → as_float (get payload "fill_price") ≡ price
            → (fill_facts o positions completes os oq side q c price).moved ≡ some m
            → Trade positions o.instrument_id payload m
        read (some os) (some oq) (some side) (some q) (some c) (some price) s t u h =
            let (priced, moves) = check_fill-moved completes os side oq q c price h in
            let facts = settle-moved _ side q c price moves in
            record {
              side = side;
              quantity = q;
              price = price;
              side_read = s;
              quantity_read = t;
              price_read = u;
              priced = priced;
              covered = facts.0;
              cash = facts.1;
              gain = facts.2;
            }
        read _ _ _ _ _ _ s t u h = cc

    stamp-moved :
        (next : PaperOrderStatus) (at : Datetime) (payload : Dict F) (c : Change F)
        → (stamp next at payload c).moved ≡ c.moved
    unfolding stamp
    stamp-moved next at payload c = elim (Bool-cases c.valid) [
      | inl e ↦ rw e refl
      | inr e ↦ rw e refl
    ]

    -- What a round that is no fill leaves.
    abbrev IsStill : Change F → Type 0
    IsStill c = (c.moved ≡ none) × (c.positions ≡ positions)

    by_type-IsStill :
        (next : PaperOrderStatus) (e : PaperEventType) (at : Datetime) (payload : Dict F)
        → is_fill e ≡ false
        → IsStill (by_type o positions next e at payload)
    unfolding by_type
    by_type-IsStill next _ at payload h = ground arith

    by_type-Trade :
        (next : PaperOrderStatus) (e : PaperEventType) (at : Datetime) (payload : Dict F)
        {m : F × F}
        → (by_type o positions next e at payload).moved ≡ some m
        → (is_fill e ≡ true) × Trade positions o.instrument_id payload m
    unfolding by_type
    by_type-Trade next PaperEventType.order_partially_filled at payload h =
        (refl, apply_fill-Trade false payload (sym (stamp-moved next at payload _) ∙ h))
    by_type-Trade next PaperEventType.order_filled at payload h =
        (refl, apply_fill-Trade true payload (sym (stamp-moved next at payload _) ∙ h))
    by_type-Trade next _ at payload h = ground arith

  risk_part-instrument_id :
      (o : ProjectedOrder F) (e : PaperEventType) (payload : Dict F) {seen : ProjectedOrder F}
      {risk : Option Bool}
      → risk_part o e payload ≡ some (seen, risk)
      → seen.instrument_id ≡ o.instrument_id
  unfolding risk_part
  risk_part-instrument_id o PaperEventType.risk_decision payload h = ground arith
  risk_part-instrument_id o PaperEventType.order_rejected payload h = ground arith
  risk_part-instrument_id o _ payload h = ground arith

  module _ (o : ProjectedOrder F) (positions : List (String × Position F)) (e : PaperEventType)
      (at : Datetime) (payload : Dict F) where
    -- What holds of a refusal and of every branch of the event's type holds of the round.
    project-elim :
        (P : Change F → Type 0)
        → ((seen : ProjectedOrder F)
            → seen.instrument_id ≡ o.instrument_id
            → P (refused seen positions)
              × ((next : PaperOrderStatus) → P (by_type seen positions next e at payload)))
        → P (project o positions e at payload)
    unfolding project
    project-elim P each = go (risk_part o e payload) refl
      where
        stepped :
            (seen : ProjectedOrder F)
            → seen.instrument_id ≡ o.instrument_id
            → (next : Option PaperOrderStatus)
            → P (elim next [
              | none ↦ refused seen positions
              | some next_status ↦ by_type seen positions next_status e at payload
            ])
        stepped seen i none = (each seen i).0
        stepped seen i (some next) = (each seen i).1 next

        go :
            (r : Option (ProjectedOrder F × Option Bool))
            → risk_part o e payload ≡ r
            → P (elim r [
              | none ↦ refused o positions
              | some (seen, risk_allowed) ↦ elim (apply seen.status e risk_allowed) [
                | none ↦ refused seen positions
                | some next_status ↦ by_type seen positions next_status e at payload
              ]
            ])
        go none h = (each o refl).0
        go (some (seen, risk)) h =
            stepped seen (risk_part-instrument_id o e payload h) (apply seen.status e risk)

    project-IsStill : is_fill e ≡ false → IsStill o positions (project o positions e at payload)
    project-IsStill h =
        project-elim (IsStill o positions)
          (λ seen i. ((refl, refl), λ next. by_type-IsStill seen positions next e at payload h))

    project-Trade :
        {m : F × F}
        → (project o positions e at payload).moved ≡ some m
        → (is_fill e ≡ true) × Trade positions o.instrument_id payload m
    project-Trade {m} =
        project-elim
          (λ c. c.moved ≡ some m → (is_fill e ≡ true) × Trade positions o.instrument_id payload m)
          (λ seen i. (
            λ h. cc,
            λ next h.
                subst (λ k. (is_fill e ≡ true) × Trade positions k payload m) i
                  (by_type-Trade seen positions next e at payload h),
          ))

module _ {F T : Type 0} ⦃fl : Floats F⦄ where
  -- What a round makes of the cash and the realised result: nothing, or the change of a trade that
  -- a fill event states.
  pub record Accounted (s : Portfolio F) (event : PaperEvent T) (payload : Option (Dict F))
      (s' : Portfolio F) : Type 0 where
    pub still :
        is_fill event.event_type ≡ false
        → (s'.cash ≡ s.cash) × (s'.realized_pnl ≡ s.realized_pnl) × (s'.positions ≡ s.positions)
    pub moved :
        ((s'.cash ≡ s.cash) × (s'.realized_pnl ≡ s.realized_pnl))
        ⊎ ((terms : Dict F) × (m : F × F) × (payload ≡ some terms)
            × (is_fill event.event_type ≡ true)
            × Trade s.positions event.instrument_id terms m
            × (s'.cash ≡ s.cash ⊕ m.0)
            × (s'.realized_pnl ≡ s.realized_pnl ⊕ m.1))

  settle_round-Accounted :
      (s : Portfolio F) (event : PaperEvent T) (terms : Dict F) (c : Change F)
      → (is_fill event.event_type ≡ false → (c.moved ≡ none) × (c.positions ≡ s.positions))
      → ((m : F × F)
          → c.moved ≡ some m
          → (is_fill event.event_type ≡ true) × Trade s.positions event.instrument_id terms m)
      → Accounted s event (some terms) (settle_round s event c)
  settle_round-Accounted s event terms c still traded = record {
    still = λ h. let (e, p) = still h in (rw e refl, rw e refl, p);
    moved = elim (Option-cases c.moved) [
      | inl e ↦ inl (rw e refl, rw e refl)
      | inr (m, e) ↦
          let (fills, trade) = traded m e in
          inr (terms, m, refl, fills, trade, rw e refl, rw e refl)
    ];
  }

  -- Whatever the event and its payload, read or not: a round of the replay changes the cash and the
  -- realised result only by a fill event whose payload states a side, a quantity, and a price above
  -- zero, of a trade that the position covers; the cash then changes by the signed amount of the
  -- trade, and the realised result by the gain of a sale over the average entry price, and by zero
  -- for a purchase. An event that is no fill leaves the positions as they are too.
  pub round-Accounted :
      (s : Portfolio F) (event : PaperEvent T) (payload : Option (Dict F))
      → Accounted s event payload (round s event payload)
  unfolding round
  round-Accounted s event none = record {
    still = λ h. (refl, refl, refl);
    moved = inl (refl, refl);
  }
  round-Accounted s event (some terms) = known (order_of s event)
    where
      known :
          (order : ProjectedOrder F)
          → Accounted s event (some terms) (settle_round s event (change_of s event order terms))
      known order = elim (Bool-cases (str_eq order.instrument_id event.instrument_id)) [
        | inl e ↦ rw e (
            settle_round-Accounted s event terms
              (project order s.positions event.event_type event.occurred_at terms)
              (project-IsStill order s.positions event.event_type event.occurred_at terms)
              (λ m h.
                subst (λ k. (is_fill event.event_type ≡ true) × Trade s.positions k terms m)
                  ((eq_iff _ _).0 e)
                  (project-Trade order s.positions event.event_type event.occurred_at terms h)))
        | inr e ↦ rw e (
            settle_round-Accounted s event terms (refused order s.positions) (λ h. (refl, refl))
              (λ m h. cc))
      ]
