-- ===== src/PaperProjection/Soundness.antt =====
-- The projection that `replay` returns, from any events.
use algo_manus.Prelude.{
  String, Bool, true, false, some, List, [], ◌∷◌, map, keep, ◌≡◌, refl, sym, ap, ◌∙◌, arith, subst,
  str_eq, not, All, if◌then◌else◌, sorted_items,
}
use algo_manus.Prelude.Int.{ℤ, pos, eqb_ℤ, ◌+ℤ◌, ◌-ℤ◌, ◌≤ℤ◌, int_laws}
use algo_manus.Prelude.Result.{value_error, raise_if, ◌>>=◌, ◌>>◌, ok, >>=-eq-ok, ok-injective}
use algo_manus.Prelude.Floats.{Floats, zero_f, ◌≺◌}
use algo_manus.Prelude.Json.{Codec}
use algo_manus.Paper.{PaperOrderStatus, PaperEvent}
use algo_manus.PaperExecution.Consistency.{precedes_fills}
use algo_manus.PaperProjection.State.{
  Position, ProjectedOrder, Portfolio, OrderProjection, PositionProjection, PortfolioProjection,
  find,
}
use algo_manus.PaperProjection.Dicts.{All-weaken, sum_of, sum_of-sorted, sorted-All, find-item}
use algo_manus.PaperProjection.Replay.{
  initial, projection, order_projection, position_projection, replay, replay_events,
}
use algo_manus.PaperProjection.Conservation.{
  contribution, signed_fills, held, IsConsistent, IsBalanced,
}
use algo_manus.PaperProjection.Conservation.Streams.{replay_events-IsBalanced, initial-IsBalanced}

module _ {F : Type 0} where
  -- The signed fills in instrument `j` of the projected orders.
  abbrev pub total_fills : String → List (OrderProjection F) → ℤ
  total_fills j [] = pos 0
  total_fills j (o ∷ orders) =
      (if str_eq o.instrument_id j then contribution o.side o.filled_quantity else pos 0)
      +ℤ total_fills j orders

  -- The fills of a projected order fit its terms and its status.
  pub record Fits (o : OrderProjection F) : Type 0 where
    pub lower : pos 0 ≤ℤ o.filled_quantity
    pub upper :
        (q : ℤ)
        → o.quantity ≡ some q
        → (o.filled_quantity ≤ℤ q) × (o.remaining_quantity ≡ some (q -ℤ o.filled_quantity))
    pub unfilled : precedes_fills o.status ≡ true → o.filled_quantity ≡ pos 0
    pub complete : o.status ≡ PaperOrderStatus.filled → o.remaining_quantity ≡ some (pos 0)

  -- Every position that is shown is long, and is the sum of the fills of the orders that are shown
  -- with it; the fills of every order fit its terms and its status.
  pub record IsSound (p : PortfolioProjection F) : Type 0 where
    pub positions :
        All
          (λ (x : PositionProjection F).
            (¬ (x.quantity ≤ℤ pos 0)) × (x.quantity ≡ total_fills x.instrument_id p.orders))
          p.positions
    pub orders : All Fits p.orders

  total_fills-map :
      (j : String) (m : List (String × ProjectedOrder F))
      → total_fills j (map order_projection m) ≡ sum_of (signed_fills j) m
  total_fills-map j [] = refl
  total_fills-map j ((k, o) ∷ m) = ap (λ t. signed_fills j o +ℤ t) (total_fills-map j m)

  order_projection-Fits :
      (item : String × ProjectedOrder F) → IsConsistent item.1 → Fits (order_projection item)
  order_projection-Fits (k, o) v = record {
    lower = v.lower;
    upper = λ q e. (v.upper q e, rw e refl);
    unfilled = v.unfilled;
    complete = λ e. rw (v.complete e) (ap some (omega int_laws));
  }

module _ {ℓ κ} {A B : Type ℓ} where
  All-map :
      (P : B → Type κ) (f : A → B) (xs : List A) → All (λ (x : A). P (f x)) xs → All P (map f xs)
  All-map P f [] a = tt
  All-map P f (x ∷ xs) (a, rest) = (a, All-map P f xs rest)

module _ {ℓ κ} {A : Type ℓ} where
  -- What is kept passes the test too.
  All-keep :
      (P : A → Type κ) (test : A → Bool) (xs : List A)
      → All P xs
      → All (λ (x : A). P x × (test x ≡ true)) (keep test xs)
  All-keep P test [] a = tt
  All-keep P test (x ∷ xs) (a, rest) = kept (test x) refl (All-keep P test xs rest)
    where
      kept :
          (b : Bool)
          → test x ≡ b
          → All (λ (y : A). P y × (test y ≡ true)) (keep test xs)
          → All
              (λ (y : A). P y × (test y ≡ true))
              (elim b [ true ↦ x ∷ keep test xs | false ↦ keep test xs ])
      kept true e others = ((a, e), others)
      kept false e others = others

module _ {F : Type 0} where
  projection-IsSound :
      (starting_cash : F) (s : Portfolio F) → IsBalanced s → IsSound (projection starting_cash s)
  unfolding projection
  projection-IsSound starting_cash s v = record {
    positions = All-map _ position_projection (keep is_open (sorted_items s.positions)) (
        All-weaken _ _ (keep is_open (sorted_items s.positions))
          (All-keep found is_open (sorted_items s.positions)
            (sorted-All found s.positions (find-item s.positions v.distinct)))
          shown);
    orders = All-map Fits order_projection (sorted_items s.orders) (
        All-weaken _ _ (sorted_items s.orders) (sorted-All _ s.orders v.orders)
          order_projection-Fits);
  }
    where
      is_open : String × Position F → Bool
      is_open item = not (eqb_ℤ item.1.quantity (pos 0))

      found : String × Position F → Type 0
      found item = find item.0 s.positions ≡ some item.1

      shown :
          (item : String × Position F)
          → found item × (is_open item ≡ true)
          → (¬ (item.1.quantity ≤ℤ pos 0))
            × (item.1.quantity ≡ total_fills item.0 (map order_projection (sorted_items s.orders)))
      shown (k, p) (e, some_q) =
          let same : held k s.positions ≡ p.quantity = rw (e, held) refl in
          (
            λ n. ground (arith, v.long_only k, same),
            sym same
                ∙ v.conserved k
                ∙ sym (sum_of-sorted (signed_fills k) s.orders)
                ∙ sym (total_fills-map k (sorted_items s.orders)),
          )

module _ {F T : Type 0} ⦃fl : Floats F⦄ where
  -- Whatever events a ledger holds, in whatever order: when `replay` returns a projection, every
  -- position that it shows is long and is the sum of the signed fills of the orders that it shows,
  -- and each order shows nothing filled before its first fill, never more than its quantity, what
  -- remains of it, and nothing remaining when it is FILLED.
  pub replay-IsSound :
      (codec : Codec F T) (events : List (PaperEvent T)) (starting_cash : F)
      {p : PortfolioProjection F}
      → replay codec events starting_cash ≡ ok p
      → IsSound p
  unfolding replay
  replay-IsSound codec events starting_cash {p} h = checked (starting_cash ≺ zero_f) h
    where
      checked :
          (test : Bool)
          → (raise_if test (value_error "starting_cash cannot be negative")
              >> (replay_events codec (initial starting_cash) events >>= λ s.
                  ok (projection starting_cash s)))
            ≡ ok p
          → IsSound p
      checked true e = cc
      checked false e =
          let (s, read, made) =
            >>=-eq-ok (replay_events codec (initial starting_cash) events)
              (λ s. ok (projection starting_cash s)) e in
          subst IsSound (ok-injective made) (
            projection-IsSound starting_cash s (
              replay_events-IsBalanced codec (initial starting_cash) events
                (initial-IsBalanced starting_cash) read))
