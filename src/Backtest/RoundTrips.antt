-- ===== src/Backtest/RoundTrips.antt =====
-- Every trade of a backtest is bought on one signal and sold on a later one, or at the end.
use algo_manus.Prelude.{
  ℕ, zero, suc, ◌<◌, Bool, true, false, Option, none, some, List, [], ◌∷◌, ◌++◌, All, length, take,
  drop, get_elem?, ◌≡◌, refl, ap, arith, subst, inl, inr, ◌⊎◌, Option-cases, Bool-cases,
  if◌then◌else◌,
}
use algo_manus.Prelude.Floats.{Floats, ◌⊕◌, ◌⊖◌, ◌⊗◌, ◌≼◌}
use algo_manus.Prelude.Time.{Datetime}
use algo_manus.Market.{Candle}
use algo_manus.Backtest.Contracts.{BacktestSpec, BacktestTrade}
use algo_manus.Backtest.Engine.{
  SignalAction, Strategy, RunState, OpenPosition, apply_slippage, cost_of, outlay, close_position,
  enter, leave, trade_on, mark, counted, step, close_at_end, force_close, last_or, finish, initial,
  loop, run_bars,
}

module _ {ℓ} {A : Type ℓ} where
  pub drop-cons :
      (n : ℕ) (xs ys : List A) (y : A)
      → drop n xs ≡ y ∷ ys
      → (get_elem? xs n ≡ some y) × (drop (suc n) xs ≡ ys)
  drop-cons zero [] ys y h = cc
  drop-cons (suc n) [] ys y h = cc
  drop-cons zero (x ∷ xs) ys y h = (cc, cc)
  drop-cons (suc n) (x ∷ xs) ys y h = drop-cons n xs ys y h

  last_or-get_elem? : (x : A) (xs : List A) → get_elem? (x ∷ xs) (length xs) ≡ some (last_or x xs)
  last_or-get_elem? x [] = refl
  last_or-get_elem? x (y ∷ ys) = last_or-get_elem? y ys

module _ {ℓ κ} {A : Type ℓ} where
  All-add : (P : A → Type κ) (xs : List A) (x : A) → All P xs → P x → All P (xs ++ x ∷ [])
  All-add P [] x a px = (px, tt)
  All-add P (y ∷ xs) x (py, a) px = (py, All-add P xs x a px)

module _ {F P : Type 0} ⦃fl : Floats F⦄ (strategy : Strategy F P) (p : P) (spec : BacktestSpec F)
    (candles : List (Candle F)) where
  -- The signal on the candles up to `index` was to buy, and this is the next candle's open.
  pub record Bought (index : ℕ) (time : Datetime) (price : F) : Type 0 where
    pub next : Candle F
    pub at_next : get_elem? candles (suc index) ≡ some next
    pub signal : strategy.signal (take (suc index) candles) p ≡ SignalAction.enter_long
    pub on_time : time ≡ next.timestamp
    pub at_price : price ≡ apply_slippage next.open_price spec.slippage_bps true

  -- The signal on the candles up to `index` was to sell, and this is the next candle's open.
  pub record Sold (index : ℕ) (time : Datetime) (price : F) : Type 0 where
    pub next : Candle F
    pub at_next : get_elem? candles (suc index) ≡ some next
    pub signal : strategy.signal (take (suc index) candles) p ≡ SignalAction.exit_long
    pub on_time : time ≡ next.timestamp
    pub at_price : price ≡ apply_slippage next.open_price spec.slippage_bps false

  -- A trade of the specified quantity, bought on a signal, with the sums that follow from its
  -- prices, and sold as `How` says after the index of the purchase.
  pub record RoundTrip (How : ℕ → Datetime → F → Type 0) (t : BacktestTrade F) : Type 0 where
    pub entry_index : ℕ
    pub entry : Bought entry_index t.entry_time t.entry_price
    pub exit : How entry_index t.exit_time t.exit_price
    pub quantity : t.quantity ≡ spec.quantity
    pub gross_pnl : t.gross_pnl ≡ (t.exit_price ⊖ t.entry_price) ⊗ fl.of_int spec.quantity
    pub cost :
        t.cost
        ≡ cost_of t.entry_price spec.quantity spec.commission_bps
          ⊕ cost_of t.exit_price spec.quantity spec.commission_bps

  -- Sold on a later signal.
  abbrev pub SoldLater : ℕ → Datetime → F → Type 0
  SoldLater entry_index time price = (index : ℕ) × (entry_index < index) × Sold index time price

  -- The position is bought on a signal before `index`.
  abbrev pub Holds : ℕ → Option (OpenPosition F) → Type 0
  Holds index none = Unit
  Holds index (some position) =
      (entry_index : ℕ) × (entry_index < index)
      × Bought entry_index position.entry_time position.entry_price
      × (position.quantity ≡ spec.quantity)

  leave-RoundTrip :
      (How : ℕ → Datetime → F → Type 0) (position : OpenPosition F) (i : ℕ) (time : Datetime)
      (price cash : F)
      → Bought i position.entry_time position.entry_price
      → position.quantity ≡ spec.quantity
      → How i time (apply_slippage price spec.slippage_bps false)
      → RoundTrip How (close_position spec position time price cash).0
  unfolding close_position
  leave-RoundTrip How position i time price cash bought q how = record {
    entry_index = i;
    entry = bought;
    exit = how;
    quantity = q;
    gross_pnl =
        ap
          (λ n. (apply_slippage price spec.slippage_bps false ⊖ position.entry_price) ⊗ fl.of_int n)
          q;
    cost = rw q refl;
  }

  later-Holds :
      (index : ℕ) (position : Option (OpenPosition F))
      → Holds index position
      → Holds (suc index) position
  later-Holds index none h = tt
  later-Holds index (some position) (i, before, bought, q) = (i, omega (arith, before), bought, q)

  -- A state with these trades and this position.
  abbrev IsTraded : ℕ → RunState F → Type 0
  IsTraded index s = All (RoundTrip SoldLater) s.trades × Holds index s.position

  enter-Traded :
      (index : ℕ) (next : Candle F) (s : RunState F)
      → get_elem? candles (suc index) ≡ some next
      → strategy.signal (take (suc index) candles) p ≡ SignalAction.enter_long
      → s.position ≡ none
      → All (RoundTrip SoldLater) s.trades
      → IsTraded (suc index) (enter spec next s)
  unfolding enter
  enter-Traded index next s at_next e empty v =
      elim (Bool-cases
        (outlay spec (apply_slippage next.open_price spec.slippage_bps true) ≼ s.cash)) [
          | inl covered ↦ rw covered (
            v,
            (
              index,
              omega arith,
              record {
                next = next;
                at_next = at_next;
                signal = e;
                on_time = refl;
                at_price = refl;
              },
              refl,
            ),
          )
          | inr short ↦ rw (short, empty) (v, tt)
        ]

  trade_on-Traded :
      (index : ℕ) (signal : SignalAction) (next : Candle F) (s : RunState F)
      → get_elem? candles (suc index) ≡ some next
      → strategy.signal (take (suc index) candles) p ≡ signal
      → IsTraded index s
      → IsTraded (suc index) (trade_on spec signal next s)
  unfolding trade_on leave
  trade_on-Traded index SignalAction.hold next s at_next e v =
      (v.0, later-Holds index s.position v.1)
  trade_on-Traded index SignalAction.enter_long next s at_next e v =
      elim (Option-cases s.position) [
        | inl empty ↦ rw (empty, trade_on) (enter-Traded index next s at_next e empty v.0)
        | inr (held, some_held) ↦ rw (some_held, trade_on) (v.0, later-Holds index s.position v.1)
      ]
  trade_on-Traded index SignalAction.exit_long next s at_next e v = elim (Option-cases s.position) [
    | inl empty ↦ rw (empty, trade_on) (v.0, later-Holds index s.position v.1)
    | inr (held, some_held) ↦
        let (i, before, bought, q) = subst (Holds index) some_held v.1 in
        let sold : SoldLater i next.timestamp
            (apply_slippage next.open_price spec.slippage_bps false) =
          (
            index,
            before,
            record { next = next; at_next = at_next; signal = e; on_time = refl; at_price = refl },
          ) in
        rw (some_held, trade_on)
          (
            All-add _ s.trades _ v.0 (
                leave-RoundTrip SoldLater held i next.timestamp next.open_price s.cash bought q
                  sold),
            tt,
          )
  ]

  loop-Traded :
      (index : ℕ) (rest : List (Candle F)) (s : RunState F)
      → drop (suc index) candles ≡ rest
      → IsTraded index s
      → (last : ℕ) × IsTraded last (loop strategy p spec candles index rest s)
  unfolding loop step mark
  loop-Traded index [] s h v = (index, v)
  loop-Traded index (next ∷ rest) s h v =
      let (at_next, later) = drop-cons (suc index) candles rest next h in
      let signal = strategy.signal (take (suc index) candles) p in
      loop-Traded (suc index) rest (step spec signal next s) later
        (trade_on-Traded index signal next (counted signal s) at_next refl v)

  -- Sold at the close of the last candle, as the specification asks.
  abbrev pub SoldAtEnd : Datetime → F → Type 0
  SoldAtEnd time price =
      (final : Candle F) × (last : ℕ) × (suc last ≡ length candles)
      × (get_elem? candles last ≡ some final)
      × (spec.force_close_at_end ≡ true)
      × (time ≡ final.timestamp)
      × (price ≡ apply_slippage final.close spec.slippage_bps false)

  abbrev pub SoldAfter : ℕ → Datetime → F → Type 0
  SoldAfter entry_index time price = SoldLater entry_index time price ⊎ SoldAtEnd time price

  any_sale :
      (trades : List (BacktestTrade F))
      → All (RoundTrip SoldLater) trades
      → All (RoundTrip SoldAfter) trades
  any_sale [] v = tt
  any_sale (t ∷ trades) (v, rest) = (
    record {
      entry_index = v.entry_index;
      entry = v.entry;
      exit = inl v.exit;
      quantity = v.quantity;
      gross_pnl = v.gross_pnl;
      cost = v.cost;
    },
    any_sale trades rest,
  )

  force_close-trades :
      (final : Candle F) (index last : ℕ) (s : RunState F)
      → suc last ≡ length candles
      → get_elem? candles last ≡ some final
      → IsTraded index s
      → All (RoundTrip SoldAfter) (force_close spec final s).trades
  unfolding force_close leave
  force_close-trades final index last s size at_last v = elim (Option-cases s.position) [
    | inl empty ↦ rw (empty, force_close) (any_sale s.trades v.0)
    | inr (held, some_held) ↦
        let (i, before, bought, q) = subst (Holds index) some_held v.1 in
        rw (some_held, force_close)
          (closed held spec.force_close_at_end (λ asked.
            leave-RoundTrip SoldAfter held i final.timestamp final.close s.cash bought q
              (inr (final, last, size, at_last, asked, refl, refl))))
  ]
    where
      closed :
          (held : OpenPosition F) (test : Bool)
          → (test ≡ true
              → RoundTrip SoldAfter (close_position spec held final.timestamp final.close s.cash).0)
          → All (RoundTrip SoldAfter) (if test then close_at_end spec held final s else s).trades
      closed held true sold =
          All-add (RoundTrip SoldAfter) s.trades
            (close_position spec held final.timestamp final.close s.cash).0 (any_sale s.trades v.0)
            (sold refl)
      closed held false sold = any_sale s.trades v.0

  -- Every trade of the run, when the loop and the sale at the end are over.
  pub finish-RoundTrips :
      All (RoundTrip SoldAfter) (finish spec candles (run_bars strategy p spec candles)).trades
  unfolding run_bars
  finish-RoundTrips =
      let (index, v) =
        loop-Traded (strategy.required_history p) (drop (suc (strategy.required_history p)) candles)
          (initial spec) refl (tt, tt) in
      ended candles refl index (run_bars strategy p spec candles) v
    where
      ended :
          (all : List (Candle F))
          → all ≡ candles
          → (index : ℕ) (s : RunState F) → IsTraded index s
          → All (RoundTrip SoldAfter) (finish spec all s).trades
      ended [] e index s v = any_sale s.trades v.0
      ended (c ∷ rest) e index s v =
          force_close-trades (last_or c rest) index (length rest) s (ap length e)
            (subst (λ cs. get_elem? cs (length rest) ≡ some (last_or c rest)) e
              (last_or-get_elem? c rest))
            v
