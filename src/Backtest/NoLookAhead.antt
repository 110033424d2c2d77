-- ===== src/Backtest/NoLookAhead.antt =====
-- The loop of the backtester uses no candle before its turn.
use algo_manus.Prelude.{
  ℕ, zero, suc, ◌+◌, ◌-◌, ◌≤◌, List, [], ◌∷◌, ◌++◌, length, take, drop, ◌≡◌, refl, sym, ap, ◌∙◌,
  arith, subst, Bool-cases, leb, inl, inr, Option-cases,
}
use algo_manus.Prelude.Floats.{Floats, ◌⊕◌}
use algo_manus.Prelude.Time.{Datetime}
use algo_manus.Market.{Candle}
use algo_manus.Backtest.Contracts.{BacktestSpec, BacktestTrade}
use algo_manus.Backtest.Engine.{
  SignalAction, Strategy, RunState, enter, leave, trade_on, mark, counted, held_value, step,
  initial, loop, run_bars,
}

module _ {ℓ} {A : Type ℓ} where
  pub append_nil : (xs : List A) → xs ++ [] ≡ xs
  append_nil [] = refl
  append_nil (x ∷ xs) = ap (λ ys. x ∷ ys) (append_nil xs)

  append_assoc : (xs ys zs : List A) → (xs ++ ys) ++ zs ≡ xs ++ (ys ++ zs)
  append_assoc [] ys zs = refl
  append_assoc (x ∷ xs) ys zs = ap (λ ws. x ∷ ws) (append_assoc xs ys zs)

  take-append : (n : ℕ) (xs ys : List A) → n ≤ length xs → take n (xs ++ ys) ≡ take n xs
  take-append zero xs ys h = refl
  take-append (suc n) [] ys h = absurd (omega arith)
  take-append (suc n) (x ∷ xs) ys h = ap (λ ws. x ∷ ws) (take-append n xs ys (omega arith))

  drop-append : (n : ℕ) (xs ys : List A) → n ≤ length xs → drop n (xs ++ ys) ≡ drop n xs ++ ys
  drop-append zero xs ys h = refl
  drop-append (suc n) [] ys h = absurd (omega arith)
  drop-append (suc n) (x ∷ xs) ys h = drop-append n xs ys (omega arith)

  pub length-drop : (n : ℕ) (xs : List A) → length (drop n xs) ≡ length xs - n
  length-drop zero xs = omega arith
  length-drop (suc n) [] = omega arith
  length-drop (suc n) (x ∷ xs) = omega (arith, length-drop n xs)

  drop-past : (n : ℕ) (xs : List A) → length xs ≤ n → drop n xs ≡ []
  drop-past zero [] h = refl
  drop-past zero (x ∷ xs) h = absurd (omega arith)
  drop-past (suc n) [] h = refl
  drop-past (suc n) (x ∷ xs) h = drop-past n xs (omega arith)

module _ {F : Type 0} where
  -- The later variables hold the trades and the equity points of the earlier ones, and more.
  pub record Extends (s s' : RunState F) : Type 0 where
    pub more_trades : List (BacktestTrade F)
    pub more_points : List (Datetime × F)
    pub trades : s'.trades ≡ s.trades ++ more_trades
    pub equity_curve : s'.equity_curve ≡ s.equity_curve ++ more_points

  Extends-trans : (s t u : RunState F) → Extends s t → Extends t u → Extends s u
  Extends-trans s t u a b = record {
    more_trades = a.more_trades ++ b.more_trades;
    more_points = a.more_points ++ b.more_points;
    trades =
        b.trades
        ∙ ap (λ xs. xs ++ b.more_trades) a.trades
        ∙ append_assoc s.trades a.more_trades b.more_trades;
    equity_curve =
        b.equity_curve
        ∙ ap (λ xs. xs ++ b.more_points) a.equity_curve
        ∙ append_assoc s.equity_curve a.more_points b.more_points;
  }

module _ {F : Type 0} ⦃fl : Floats F⦄ where
  abbrev Adds : RunState F → RunState F → Type 0
  Adds s s' =
      (s'.equity_curve ≡ s.equity_curve)
      × (more : List (BacktestTrade F)) × (s'.trades ≡ s.trades ++ more)

  enter-Adds :
      (spec : BacktestSpec F) (next : Candle F) (s : RunState F) → Adds s (enter spec next s)
  unfolding enter
  enter-Adds spec next s = (ground arith, [], sym (append_nil _ ∙ ground arith))

  trade_on-Adds :
      (spec : BacktestSpec F) (signal : SignalAction) (next : Candle F) (s : RunState F)
      → Adds s (trade_on spec signal next s)
  unfolding trade_on leave
  trade_on-Adds spec SignalAction.hold next s = (refl, [], sym (append_nil s.trades))
  trade_on-Adds spec SignalAction.enter_long next s = elim (Option-cases s.position) [
    | inl e ↦ rw (e, trade_on) (enter-Adds spec next s)
    | inr (held, e) ↦ rw (e, trade_on) (refl, [], sym (append_nil s.trades))
  ]
  trade_on-Adds spec SignalAction.exit_long next s = elim (Option-cases s.position) [
    | inl e ↦ rw (e, trade_on) (refl, [], sym (append_nil s.trades))
    | inr (held, e) ↦ rw (e, trade_on) (refl, _, refl)
  ]

  step-Extends :
      (spec : BacktestSpec F) (signal : SignalAction) (next : Candle F) (s : RunState F)
      → Extends s (step spec signal next s)
  unfolding step mark
  step-Extends spec signal next s =
      let traded = trade_on spec signal next (counted signal s) in
      let point : Datetime × F =
        (next.timestamp, traded.cash ⊕ held_value traded.position next.close) in
      let (points, more, trades) = trade_on-Adds spec signal next (counted signal s) in
      record {
        more_trades = more;
        more_points = point ∷ [];
        trades = trades;
        equity_curve = ap (λ xs. xs ++ point ∷ []) points;
      }

module _ {F P : Type 0} ⦃fl : Floats F⦄ (strategy : Strategy F P) (p : P)
    (spec : BacktestSpec F) where
  loop-Extends :
      (candles : List (Candle F)) (index : ℕ) (rest : List (Candle F)) (s : RunState F)
      → Extends s (loop strategy p spec candles index rest s)
  unfolding loop
  loop-Extends candles index [] s = record {
    more_trades = [];
    more_points = [];
    trades = sym (append_nil _);
    equity_curve = sym (append_nil _);
  }
  loop-Extends candles index (next ∷ rest) s =
      Extends-trans s _ _ (step-Extends spec (strategy.signal (take (suc index) candles) p) next s)
        (loop-Extends candles (suc index) rest _)

  -- The first candles are handled before the later ones, and without them.
  loop-append :
      (seen more : List (Candle F)) (index : ℕ) (rest : List (Candle F)) (s : RunState F)
      → suc index + length rest ≤ length seen
      → loop strategy p spec (seen ++ more) index (rest ++ more) s
        ≡ loop strategy p spec
            (seen ++ more)
            (index + length rest)
            more
            (loop strategy p spec seen index rest s)
  unfolding loop
  loop-append seen more index [] s h =
      ap (λ i. loop strategy p spec (seen ++ more) i more s) (omega arith)
  loop-append seen more index (next ∷ rest) s h =
      let after = step spec (strategy.signal (take (suc index) seen) p) next s in
      rw (take-append (suc index) seen more (omega arith), loop)
        (loop-append seen more (suc index) rest after (omega arith)
          ∙ ap
              (λ i.
                loop strategy p spec (seen ++ more) i more
                  (loop strategy p spec seen (suc index) rest after))
              (omega arith))

  -- Candles that are not there yet change nothing of what the loop has recorded: the trades and
  -- the equity curve of the loop over the first candles begin those of the loop over more candles,
  -- for any strategy, parameters and specification.
  pub run_bars-Extends :
      (seen more : List (Candle F))
      → Extends (run_bars strategy p spec seen) (run_bars strategy p spec (seen ++ more))
  unfolding run_bars loop
  run_bars-Extends seen more =
      let r = strategy.required_history p in
      elim (Bool-cases (leb (suc r) (length seen))) [
        | inl e ↦
            let rest = drop (suc r) seen in
            let size = length-drop (suc r) seen in
            let handled =
              ap (λ later. loop strategy p spec (seen ++ more) r later (initial spec))
                (drop-append (suc r) seen more (ground arith))
              ∙ loop-append seen more r rest (initial spec) (ground arith) in
            subst (Extends (run_bars strategy p spec seen)) (sym handled)
              (loop-Extends (seen ++ more) (r + length rest) more (run_bars strategy p spec seen))
        | inr e ↦
            rw (drop-past (suc r) seen (ground arith), loop)
              (loop-Extends (seen ++ more) r (drop (suc r) (seen ++ more)) (initial spec))
      ]
