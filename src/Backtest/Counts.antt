-- ===== src/Backtest/Counts.antt =====
-- The counts of a backtest: bars, signals and trades.
use algo_manus.Prelude.{
  ℕ, suc, ◌+◌, ◌-◌, ◌≤◌, Option, none, some, List, [], ◌∷◌, ◌++◌, length, length-append, take, drop,
  ◌≡◌, ◌≢◌, ◌↔◌, refl, sym, ap, ◌∙◌, arith, subst, ◌==◌, not, if◌then◌else◌,
}
use algo_manus.Prelude.Int.{pos}
use algo_manus.Prelude.Result.{ok}
use algo_manus.Prelude.Floats.{Floats}
use algo_manus.Market.{Candle, CandleDataset}
use algo_manus.Backtest.Contracts.{
  BacktestSpec, BacktestOutcome, BacktestOutcomeKind, BacktestResult, backtest_outcome,
}
use algo_manus.Backtest.Measures.{metrics}
use algo_manus.Backtest.Engine.{
  SignalAction, Strategy, StrategyParameterRevision, RunState, OpenPosition, as_count, is_enter,
  is_exit, enter, leave, trade_on, mark, counted, step, force_close, finish, last_or, initial, loop,
  run_bars, calculated_outcome, run,
}
use algo_manus.Backtest.NoLookAhead.{length-drop}
use algo_manus.Backtest.Results.{run-Ran, final_state}

length-snoc {ℓ} : {A : Type ℓ} (xs : List A) (x : A) → length (xs ++ x ∷ []) ≡ suc (length xs)
length-snoc xs x = omega (arith, length-append xs (x ∷ []))

module _ {F : Type 0} where
  abbrev holding : Option (OpenPosition F) → ℕ
  holding none = 0
  holding (some position) = 1

  -- A state after this many bars: each trade had its two signals, and each bar at most one.
  record Tallied (bars : ℕ) (s : RunState F) : Type 0 where
    entered : length s.trades + holding s.position ≤ s.enter_signal_count
    exited : length s.trades ≤ s.exit_signal_count
    signals : s.enter_signal_count + s.exit_signal_count ≤ bars
    points : length s.equity_curve ≡ bars
    exposed : s.exposure_points ≤ bars

module _ {F : Type 0} ⦃fl : Floats F⦄ (spec : BacktestSpec F) where
  -- What a trade adds to the counts.
  record Moves (signal : SignalAction) (s s' : RunState F) : Type 0 where
    entered :
        length s'.trades + holding s'.position
        ≤ length s.trades + holding s.position + as_count (is_enter signal)
    exited : length s'.trades ≤ length s.trades + as_count (is_exit signal)
    points : s'.equity_curve ≡ s.equity_curve
    exposure : s'.exposure_points ≡ s.exposure_points
    enters : s'.enter_signal_count ≡ s.enter_signal_count
    exits : s'.exit_signal_count ≡ s.exit_signal_count

  stays-Moves : (signal : SignalAction) (s : RunState F) → Moves signal s s
  stays-Moves signal s = record {
    entered = omega arith;
    exited = omega arith;
    points = refl;
    exposure = refl;
    enters = refl;
    exits = refl;
  }

  trade_on-Moves :
      (signal : SignalAction) (next : Candle F) (s : RunState F)
      → Moves signal s (trade_on spec signal next s)
  unfolding trade_on enter leave
  trade_on-Moves SignalAction.hold next s = stays-Moves _ s
  trade_on-Moves SignalAction.enter_long next s = record {
    entered = ground arith;
    exited = ground arith;
    points = ground arith;
    exposure = ground arith;
    enters = ground arith;
    exits = ground arith;
  }
  trade_on-Moves SignalAction.exit_long next s = record {
    entered = grind (arith, length-snoc);
    exited = grind (arith, length-snoc);
    points = ground arith;
    exposure = ground arith;
    enters = ground arith;
    exits = ground arith;
  }

  step-Tallied :
      (bars : ℕ) (signal : SignalAction) (next : Candle F) (s : RunState F)
      → Tallied bars s
      → Tallied (suc bars) (step spec signal next s)
  unfolding step mark
  step-Tallied bars signal next s v =
      let m = trade_on-Moves signal next (counted signal s) in
      record {
        entered = omega (arith, m.entered, m.enters, v.entered);
        exited = omega (arith, m.exited, m.exits, v.exited);
        signals = ground (arith, m.enters, m.exits, v.signals);
        points = length-snoc _ _ ∙ ap suc (ap length m.points ∙ v.points);
        exposed = ground (arith, m.exposure, v.exposed);
      }

module _ {F P : Type 0} ⦃fl : Floats F⦄ (strategy : Strategy F P) (p : P) (spec : BacktestSpec F)
    (candles : List (Candle F)) where
  loop-Tallied :
      (index bars : ℕ) (rest : List (Candle F)) (s : RunState F)
      → Tallied bars s
      → Tallied (bars + length rest) (loop strategy p spec candles index rest s)
  unfolding loop
  loop-Tallied index bars [] s v = subst (λ n. Tallied n s) (omega arith) v
  loop-Tallied index bars (next ∷ rest) s v =
      let signal = strategy.signal (take (suc index) candles) p in
      let after = step spec signal next s in
      subst (λ n. Tallied n (loop strategy p spec candles (suc index) rest after)) (omega arith)
        (loop-Tallied (suc index) (suc bars) rest after (step-Tallied spec bars signal next s v))

  run_bars-Tallied :
      Tallied
        (length candles - suc (strategy.required_history p))
        (run_bars strategy p spec candles)
  unfolding run_bars
  run_bars-Tallied =
      let r = strategy.required_history p in
      subst (λ n. Tallied n (run_bars strategy p spec candles))
        (omega (arith, length-drop (suc r) candles))
        (loop-Tallied r 0 (drop (suc r) candles) (initial spec) (record {
          entered = omega arith;
          exited = omega arith;
          signals = omega arith;
          points = refl;
          exposed = omega arith;
        }))

  -- The counts at the end of a run, where a last sale has no signal and one more point.
  record Totals (bars : ℕ) (s : RunState F) : Type 0 where
    entered : length s.trades ≤ s.enter_signal_count
    exited : length s.trades ≤ suc s.exit_signal_count
    signals : s.enter_signal_count + s.exit_signal_count ≤ bars
    points_lower : bars ≤ length s.equity_curve
    points_upper : length s.equity_curve ≤ suc bars
    exposed : s.exposure_points ≤ bars

  force_close-Totals :
      (bars : ℕ) (final : Candle F) (s : RunState F)
      → Tallied bars s
      → Totals bars (force_close spec final s)
  unfolding force_close leave
  force_close-Totals bars final s v = record {
    entered = grind (arith, length-snoc, v.entered);
    exited = grind (arith, length-snoc, v.exited);
    signals = ground (arith, v.signals);
    points_lower = grind (arith, length-snoc, v.points);
    points_upper = grind (arith, length-snoc, v.points);
    exposed = ground (arith, v.exposed);
  }

  finish-Totals :
      (bars : ℕ) (all : List (Candle F)) (s : RunState F)
      → Tallied bars s
      → Totals bars (finish spec all s)
  finish-Totals bars [] s v = record {
    entered = omega (arith, v.entered);
    exited = omega (arith, v.exited);
    signals = v.signals;
    points_lower = omega (arith, v.points);
    points_upper = omega (arith, v.points);
    exposed = v.exposed;
  }
  finish-Totals bars (c ∷ all) s v = force_close-Totals bars (last_or c all) s v

kind_iff {ℓ} :
    {A : Type ℓ} (trades : List A)
    → ((if not (length trades == 0)
          then BacktestOutcomeKind.calculated_with_trades
          else BacktestOutcomeKind.calculated_no_trades)
        ≡ BacktestOutcomeKind.calculated_with_trades)
      ↔ (trades ≢ [])
kind_iff [] = (λ h. cc, λ n. absurd (n refl))
kind_iff (t ∷ trades) = (λ h e. cc, λ n. ground arith)

-- An outcome that its constructor accepts is returned as it is.
backtest_outcome-same :
    (o : BacktestOutcome) {o' : BacktestOutcome} → backtest_outcome o ≡ ok o' → o ≡ o'
unfolding backtest_outcome
backtest_outcome-same o h = ground arith

module _ {F P : Type 0} ⦃fl : Floats F⦄ (dataset : CandleDataset F) (strategy : Strategy F P)
    (parameters : StrategyParameterRevision P) (spec : BacktestSpec F) where
  -- The counts of a result fit its dataset, its signals and its trades.
  pub record IsTallied (r : BacktestResult F) : Type 0 where
    pub shown : BacktestOutcome
    pub outcome : r.outcome ≡ some shown
    pub bars : ℕ
    pub all_bars :
        bars + suc (strategy.required_history parameters.parameters) ≡ length dataset.candles
    pub enters : ℕ
    pub exits : ℕ
    pub available : shown.available_bar_count ≡ pos (length dataset.candles)
    pub enter_count : shown.enter_signal_count ≡ pos enters
    pub exit_count : shown.exit_signal_count ≡ pos exits
    pub trade_count : shown.completed_trade_count ≡ pos (length r.trades)
    pub metric_count : r.metrics.trade_count ≡ length r.trades
    pub entered : length r.trades ≤ enters
    pub exited : length r.trades ≤ suc exits
    pub one_signal : enters + exits ≤ bars
    pub points_lower : bars ≤ length r.equity_curve
    pub points_upper : length r.equity_curve ≤ suc bars
    pub kind : (shown.kind ≡ BacktestOutcomeKind.calculated_with_trades) ↔ (r.trades ≢ [])

  -- When a backtest returns, each bar after the required history had at most one signal and gave
  -- one point of the equity curve, to which a sale at the end may add one; the trades are at most as
  -- many as the signals to buy, and as those to sell but for that sale; the outcome and the metrics
  -- count the trades that are returned, and the outcome says that there are trades exactly when
  -- there are.
  pub run-IsTallied :
      {r : BacktestResult F} → run dataset strategy parameters spec ≡ ok r → IsTallied r
  unfolding calculated_outcome metrics
  run-IsTallied {r} h =
      let v = run-Ran dataset strategy parameters spec h in
      let s = final_state dataset strategy parameters spec in
      let required = strategy.required_history parameters.parameters in
      let bars = length dataset.candles - suc required in
      let t =
        finish-Totals strategy parameters.parameters spec dataset.candles bars dataset.candles
          (run_bars strategy parameters.parameters spec dataset.candles)
          (run_bars-Tallied strategy parameters.parameters spec dataset.candles) in
      let same = backtest_outcome-same _ v.shows.calculated in
      record {
        shown = v.shows.shown;
        outcome = v.shows.outcome;
        bars = bars;
        all_bars = omega (arith, v.enough);
        enters = s.enter_signal_count;
        exits = s.exit_signal_count;
        available = sym (ap (λ (o : BacktestOutcome). o.available_bar_count) same);
        enter_count = sym (ap (λ (o : BacktestOutcome). o.enter_signal_count) same);
        exit_count = sym (ap (λ (o : BacktestOutcome). o.exit_signal_count) same);
        trade_count =
            rw v.shows.trades (sym (ap (λ (o : BacktestOutcome). o.completed_trade_count) same));
        metric_count = rw (v.shows.metrics_same, v.shows.trades) refl;
        entered = rw v.shows.trades t.entered;
        exited = rw v.shows.trades t.exited;
        one_signal = t.signals;
        points_lower = rw v.shows.equity_curve t.points_lower;
        points_upper = rw v.shows.equity_curve t.points_upper;
        kind = rw (v.shows.trades, ← same) (kind_iff s.trades);
      }
