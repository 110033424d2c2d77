-- ===== src/PaperProjection/Conservation/Fills.antt =====
-- What `_apply_fill` keeps of an order and of the positions.
use algo_manus.Prelude.{
  String, Bool, true, false, Option, none, some, List, ◌≡◌, ◌≢◌, refl, arith, str_eq, eq_iff,
  Bool-cases, inl, inr, ap, ◌∙◌, sym,
}
use algo_manus.Prelude.Int.{
  ℤ, pos, neg_ℤ, ltb_ℤ, ◌+ℤ◌, ◌≤ℤ◌, -ℤ_parts, eq_of_parts, int_laws, signed_laws,
}
use algo_manus.Prelude.Floats.{Floats}
use algo_manus.Orders.Fills.{same_side_iff}
use algo_manus.Prelude.Json.{Dict}
use algo_manus.Risk.Intent.{OrderSide}
use algo_manus.PaperProjection.State.{
  Position, ProjectedOrder, find, assign, found_or, new_position,
}
use algo_manus.PaperProjection.Dicts.{Distinct, assign-Distinct}
use algo_manus.PaperProjection.Evidence.{side_of, quantity_of}
use algo_manus.PaperProjection.Round.{
  Change, refused, settle, check_fill, disagrees, not_partial, not_complete, fill_facts, apply_fill,
}
use algo_manus.PaperProjection.Conservation.{
  contribution, signed_fills, held, IsConsistent, held-assign,
}

-- A position and the fills that it sums move by the same quantity.
moved_together : (h h' s s' k : ℤ) → h' ≡ h +ℤ k → s' ≡ s +ℤ k → h' +ℤ s ≡ h +ℤ s'
moved_together h h' s s' k p q = rw (p, q) (omega int_laws)

module _ {F : Type 0} ⦃fl : Floats F⦄ where
  -- What a settled purchase or sale of `quantity` units does in instrument `j`.
  bought_in :
      (o : ProjectedOrder F) (positions : List (String × Position F)) (new : Position F)
      (quantity k : ℤ) (side : OrderSide) (j : String)
      → o.side ≡ some side
      → new.quantity ≡ held o.instrument_id positions +ℤ k
      → contribution (some side) (o.filled_quantity +ℤ quantity)
        ≡ contribution (some side) o.filled_quantity +ℤ k
      → held j (assign o.instrument_id new positions) +ℤ signed_fills j o
        ≡ held j positions
          +ℤ signed_fills j (record o { filled_quantity = o.filled_quantity +ℤ quantity })
  bought_in o positions new quantity k side j s moved same =
      elim (Bool-cases (str_eq o.instrument_id j)) [
        | inl e ↦
            let here : o.instrument_id ≡ j = (eq_iff _ _).0 e in
            moved_together (held j positions) (held j (assign o.instrument_id new positions))
              (signed_fills j o)
              (signed_fills j (record o { filled_quantity = o.filled_quantity +ℤ quantity })) k
              (held-assign j o.instrument_id new positions
                ∙ rw e (moved ∙ ap (λ i. held i positions +ℤ k) here))
              (rw (e, s) same)
        | inr e ↦ rw e (ap (λ h. h +ℤ pos 0) (held-assign j o.instrument_id new positions ∙ rw e))
      ]

  -- The same for the sign of every position.
  stays_long :
      (o : ProjectedOrder F) (positions : List (String × Position F)) (new : Position F)
      → ((j : String) → pos 0 ≤ℤ held j positions)
      → pos 0 ≤ℤ new.quantity
      → (j : String) → pos 0 ≤ℤ held j (assign o.instrument_id new positions)
  stays_long o positions new long here j =
      rw (held-assign j o.instrument_id new positions) (ground (arith, long j))

  -- An order whose fills grow to at most its quantity, with a status that has fills.
  abbrev filled_to : ProjectedOrder F → ℤ → ProjectedOrder F
  filled_to o filled = record o { filled_quantity = filled }

  -- What `_apply_fill` keeps, up to the status that the loop sets afterwards.
  pub record Filled (o : ProjectedOrder F) (positions : List (String × Position F))
      (completes : Bool) (c : Change F) : Type 0 where
    pub instrument : c.order.instrument_id ≡ o.instrument_id
    pub side : c.order.side ≡ o.side
    pub quantity : c.order.quantity ≡ o.quantity
    pub status : c.order.status ≡ o.status
    pub grown : o.filled_quantity ≤ℤ c.order.filled_quantity
    pub upper : (q : ℤ) → o.quantity ≡ some q → c.order.filled_quantity ≤ℤ q
    pub refused_same : c.valid ≡ false → c.order.filled_quantity ≡ o.filled_quantity
    pub sided : c.valid ≡ true → o.side ≢ none
    pub complete : c.valid ≡ true → completes ≡ true → o.quantity ≡ some c.order.filled_quantity
    pub bounded : c.valid ≡ true → o.quantity ≢ none
    pub long_only : (j : String) → pos 0 ≤ℤ held j c.positions
    pub distinct : Distinct positions → Distinct c.positions
    pub balance :
        (j : String)
        → held j c.positions +ℤ signed_fills j o ≡ held j positions +ℤ signed_fills j c.order

  module _ (o : ProjectedOrder F) (positions : List (String × Position F)) (completes : Bool)
      (v : IsConsistent o) (long : (j : String) → pos 0 ≤ℤ held j positions) where
    refused-Filled : Filled o positions completes (refused o positions)
    refused-Filled = record {
      instrument = refl;
      side = refl;
      quantity = refl;
      status = refl;
      grown = omega arith;
      upper = v.upper;
      refused_same = λ _. refl;
      sided = λ h. cc;
      complete = λ h. cc;
      bounded = λ h. cc;
      long_only = long;
      distinct = λ d. d;
      balance = λ j. refl;
    }

    -- A fill of `quantity` units, which moves the position to `new`.
    moved-Filled :
        (new : Position F) (moved : Option (F × F)) (side : OrderSide) (q quantity k : ℤ)
        → o.side ≡ some side
        → o.quantity ≡ some q
        → ¬ (quantity ≤ℤ pos 0)
        → o.filled_quantity +ℤ quantity ≤ℤ q
        → (completes ≡ true → o.filled_quantity +ℤ quantity ≡ q)
        → new.quantity ≡ held o.instrument_id positions +ℤ k
        → pos 0 ≤ℤ new.quantity
        → contribution (some side) (o.filled_quantity +ℤ quantity)
          ≡ contribution (some side) o.filled_quantity +ℤ k
        → Filled o positions completes (record {
          order = record o { filled_quantity = o.filled_quantity +ℤ quantity };
          valid = true;
          positions = assign o.instrument_id new positions;
          moved = moved;
        })
    moved-Filled new moved side q quantity k s t some_q fits full by_k stays same = record {
      instrument = refl;
      side = refl;
      quantity = refl;
      status = refl;
      grown = omega int_laws;
      upper = λ r e. ground (arith, fits);
      refused_same = λ h. cc;
      sided = λ h e. cc;
      complete = λ h e. rw (t, full e);
      bounded = λ h e. cc;
      long_only = stays_long o positions new long stays;
      distinct = assign-Distinct o.instrument_id new positions;
      balance = λ j. bought_in o positions new quantity k side j s by_k same;
    }

    -- A sale of more than the position holds leaves everything as it was.
    unsold-Filled :
        (position : Position F) (filled : ℤ)
        → position.quantity ≡ held o.instrument_id positions
        → filled ≡ o.filled_quantity
        → Filled o positions completes (
            refused
              (record o { filled_quantity = filled })
              (assign o.instrument_id position positions))
    unsold-Filled position filled at same = record {
      instrument = refl;
      side = refl;
      quantity = refl;
      status = refl;
      grown = rw same (omega arith);
      upper = rw same v.upper;
      refused_same = λ _. same;
      sided = λ h. cc;
      complete = λ h. cc;
      bounded = λ h. cc;
      long_only = stays_long o positions position long (rw at (long o.instrument_id));
      distinct = assign-Distinct o.instrument_id position positions;
      balance = λ j. rw same (ap (λ h. h +ℤ signed_fills j o) (unmoved j));
    }
      where
        unmoved :
            (j : String) → held j (assign o.instrument_id position positions) ≡ held j positions
        unmoved j =
            held-assign j o.instrument_id position positions
            ∙ elim (Bool-cases (str_eq o.instrument_id j)) [
              | inl e ↦ rw e (at ∙ ap (λ i. held i positions) ((eq_iff _ _).0 e))
              | inr e ↦ rw e
            ]

    pub settle-Filled :
        (position : Position F) (side : OrderSide) (q quantity : ℤ) (fill_price : F)
        → o.side ≡ some side
        → o.quantity ≡ some q
        → position.quantity ≡ held o.instrument_id positions
        → ¬ (quantity ≤ℤ pos 0)
        → o.filled_quantity +ℤ quantity ≤ℤ q
        → (completes ≡ true → o.filled_quantity +ℤ quantity ≡ q)
        → Filled o positions completes
            (settle o positions position side quantity (o.filled_quantity +ℤ quantity) fill_price)
    unfolding settle
    settle-Filled position OrderSide.buy q quantity price s t at some_q fits full =
        let old : pos 0 ≤ℤ position.quantity = rw at (long o.instrument_id) in
        moved-Filled _ _ OrderSide.buy q quantity quantity s t some_q fits full
          (ap (λ h. h +ℤ quantity) at) (omega int_laws) refl
    settle-Filled position OrderSide.sell q quantity price s t at some_q fits full =
        elim (Bool-cases (ltb_ℤ position.quantity quantity)) [
          | inl short ↦ rw short (unsold-Filled position _ at (omega int_laws))
          | inr covered ↦ rw covered (
              moved-Filled _ _ OrderSide.sell q quantity (neg_ℤ quantity) s t some_q fits full
                (rw (← at) (omega signed_laws))
                (ground (arith, -ℤ_parts position.quantity quantity)) (omega signed_laws))
        ]

    found_or-held :
        (i : String) (found : Option (Position F))
        → find i positions ≡ found
        → (found_or new_position found).quantity ≡ held i positions
    found_or-held i none e = ground arith
    found_or-held i (some p) e = ground arith

    check_fill-Filled :
        (os side : OrderSide) (q quantity cumulative : ℤ) (fill_price : F)
        → o.side ≡ some os
        → o.quantity ≡ some q
        → ¬ (quantity ≤ℤ pos 0)
        → Filled o positions completes
            (check_fill o positions completes os q side quantity cumulative fill_price)
    unfolding check_fill
    check_fill-Filled os side q quantity cumulative price s t some_q =
        elim (Bool-cases (disagrees o os q side quantity cumulative price)) [
          | inl e ↦ rw e refused-Filled
          | inr agrees ↦ elim (Bool-cases (not_partial completes cumulative q)) [
            | inl e ↦ rw (agrees, e) refused-Filled
            | inr partly ↦ elim (Bool-cases (not_complete completes cumulative q)) [
              | inl e ↦ rw (agrees, partly, e) refused-Filled
              | inr fully ↦
                  let same : side ≡ os = (same_side_iff side os).0 (ground arith) in
                  let total : cumulative ≡ o.filled_quantity +ℤ quantity =
                    eq_of_parts _ _ (ground arith) in
                  rw (agrees, partly, fully, total, same)
                    (settle-Filled _ os q quantity price s t
                      (found_or-held o.instrument_id (find o.instrument_id positions) refl) some_q
                      (rw (← total) (ground arith))
                      (λ c. sym total ∙ eq_of_parts cumulative q (ground arith)))
            ]
          ]
        ]

    fill_facts-Filled :
        (os : Option OrderSide) (oq : Option ℤ) (side : Option OrderSide)
        (quantity cumulative : Option ℤ) (fill_price : Option F)
        → o.side ≡ os
        → o.quantity ≡ oq
        → ((n : ℤ) → quantity ≡ some n → ¬ (n ≤ℤ pos 0))
        → Filled o positions completes
            (fill_facts o positions completes os oq side quantity cumulative fill_price)
    unfolding fill_facts
    fill_facts-Filled (some os) (some q) (some side) (some quantity) (some cumulative) (some price)
          s t some_q =
        check_fill-Filled os side q quantity cumulative price s t (some_q quantity refl)
    fill_facts-Filled _ _ _ _ _ _ s t some_q = refused-Filled

    pub apply_fill-Filled :
        (payload : Dict F) → Filled o positions completes (apply_fill o positions completes payload)
    unfolding apply_fill quantity_of
    apply_fill-Filled payload =
        fill_facts-Filled o.side o.quantity (side_of payload) (quantity_of payload) _ _ refl refl
          (λ n e. ground arith)
