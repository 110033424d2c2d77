-- ===== src/Backtest/Engine.antt =====
-- `BarBacktestService` of src/algo_manus/application/backtesting.py, with the protocol that a
-- strategy keeps (src/algo_manus/domain/strategy.py).
use algo_manus.Prelude.{
  ℕ, suc, ◌+◌, String, Bool, true, false, Option, none, some, List, [], ◌∷◌, ◌++◌, length, take,
  drop, not, ◌||◌, ◌==◌, leb, str_eq, decimal, ◌+++◌, is_none, if◌then◌else◌,
}
use algo_manus.Prelude.Int.{ℤ, pos}
use algo_manus.Prelude.Result.{Result, ok, err, value_error, raise_if, ◌>>=◌, ◌>>◌}
use algo_manus.Prelude.Floats.{Floats, float, zero_f, ◌⊕◌, ◌⊖◌, ◌⊗◌, ◌⊘◌, ◌≼◌}
use algo_manus.Prelude.Time.{Datetime}
use algo_manus.Market.{Candle, CandleDataset, is_research}
use algo_manus.Backtest.Contracts.{
  BacktestSpec, BacktestTrade, BacktestOutcome, BacktestOutcomeKind, BacktestResult,
  backtest_outcome,
}
use algo_manus.Backtest.Measures.{metrics, drawdown_curve}

pub data SignalAction : Type 0 where
  hold enter_long exit_long : SignalAction

-- `StrategyParameterRevision`, with parameters of some type.
pub record StrategyParameterRevision (P : Type 0) : Type 0 where
  pub strategy_id : String
  pub revision_id : String
  pub parameters : P

-- `Strategy`: a pure generator of signals, which asks for a number of candles of history.
pub record Strategy (F P : Type 0) : Type 0 where
  pub strategy_id : String
  pub required_history : P → ℕ
  pub signal : List (Candle F) → P → SignalAction

-- `_OpenPosition`
pub record OpenPosition (F : Type 0) : Type 0 where
  pub entry_time : Datetime
  pub entry_price : F
  pub quantity : ℤ

-- The variables of `run`.
pub record RunState (F : Type 0) : Type 0 where
  pub cash : F
  pub position : Option (OpenPosition F)
  pub trades : List (BacktestTrade F)
  pub equity_curve : List (Datetime × F)
  pub exposure_points : ℕ
  pub enter_signal_count : ℕ
  pub exit_signal_count : ℕ

abbrev pub is_enter : SignalAction → Bool
is_enter SignalAction.enter_long = true
is_enter _ = false

abbrev pub is_exit : SignalAction → Bool
is_exit SignalAction.exit_long = true
is_exit _ = false

-- `int(condition)`
abbrev pub as_count : Bool → ℕ
as_count true = 1
as_count false = 0

module _ {F : Type 0} ⦃fl : Floats F⦄ where
  -- `_apply_slippage`
  unfoldable pub apply_slippage : F → F → Bool → F
  apply_slippage price slippage_bps is_buy =
      let multiplier =
        float (pos 1)
        ⊕ (if is_buy
            then slippage_bps ⊘ float (pos 10000)
            else fl.neg slippage_bps ⊘ float (pos 10000)) in
      price ⊗ multiplier

  -- `_cost`
  unfoldable pub cost_of : F → ℤ → F → F
  cost_of price quantity commission_bps =
      price ⊗ float quantity ⊗ commission_bps ⊘ float (pos 10000)

  -- `_close`: the trade, and the cash after it.
  unfoldable pub close_position :
      BacktestSpec F → OpenPosition F → Datetime → F → F → BacktestTrade F × F
  unfolding apply_slippage cost_of
  close_position spec position exit_time raw_exit_price cash =
      let exit_price = apply_slippage raw_exit_price spec.slippage_bps false in
      let exit_cost = cost_of exit_price position.quantity spec.commission_bps in
      (
        record {
          entry_time = position.entry_time;
          exit_time = exit_time;
          quantity = position.quantity;
          entry_price = position.entry_price;
          exit_price = exit_price;
          gross_pnl = (exit_price ⊖ position.entry_price) ⊗ float position.quantity;
          cost = cost_of position.entry_price position.quantity spec.commission_bps ⊕ exit_cost;
        },
        cash ⊕ (exit_price ⊗ float position.quantity ⊖ exit_cost),
      )

  -- The cash that a purchase at this price takes.
  abbrev pub outlay : BacktestSpec F → F → F
  outlay spec entry_price =
      entry_price ⊗ float spec.quantity ⊕ cost_of entry_price spec.quantity spec.commission_bps

  -- A purchase at the open of `next`, where the cash covers it.
  unfoldable pub enter : BacktestSpec F → Candle F → RunState F → RunState F
  enter spec next s =
      let entry_price = apply_slippage next.open_price spec.slippage_bps true in
      if outlay spec entry_price ≼ s.cash
      then record s {
        cash = s.cash ⊖ outlay spec entry_price;
        position = some (record {
          entry_time = next.timestamp;
          entry_price = entry_price;
          quantity = spec.quantity;
        });
      }
      else s

  -- The sale of the position at this time and raw price.
  unfoldable pub leave : BacktestSpec F → OpenPosition F → Datetime → F → RunState F → RunState F
  leave spec position exit_time raw_exit_price s =
      let (trade, cash) = close_position spec position exit_time raw_exit_price s.cash in
      record s { cash = cash; position = none; trades = s.trades ++ trade ∷ [] }

  -- The branch of the signal and the position.
  unfoldable pub trade_on : BacktestSpec F → SignalAction → Candle F → RunState F → RunState F
  trade_on spec SignalAction.hold next s = s
  trade_on spec SignalAction.enter_long next s = elim s.position [
    | none ↦ enter spec next s
    | some _ ↦ s
  ]
  trade_on spec SignalAction.exit_long next s = elim s.position [
    | none ↦ s
    | some position ↦ leave spec position next.timestamp next.open_price s
  ]

  abbrev pub held_value : Option (OpenPosition F) → F → F
  held_value none price = zero_f
  held_value (some position) price = float position.quantity ⊗ price

  -- The end of a pass of the loop: the position is marked at the close of `next`.
  unfoldable pub mark : Candle F → RunState F → RunState F
  mark next s = record s {
    equity_curve =
        s.equity_curve ++ (next.timestamp, s.cash ⊕ held_value s.position next.close) ∷ [];
    exposure_points = s.exposure_points + as_count (not (is_none s.position));
  }

  -- The counts of the signals, with this one.
  abbrev pub counted : SignalAction → RunState F → RunState F
  counted signal s = record s {
    enter_signal_count = s.enter_signal_count + as_count (is_enter signal);
    exit_signal_count = s.exit_signal_count + as_count (is_exit signal);
  }

  -- A pass of the loop, for the signal on the candles up to the one before `next`.
  unfoldable pub step : BacktestSpec F → SignalAction → Candle F → RunState F → RunState F
  step spec signal next s = mark next (trade_on spec signal next (counted signal s))

  -- The sale of the position at the end, with a last point on the equity curve.
  abbrev pub close_at_end : BacktestSpec F → OpenPosition F → Candle F → RunState F → RunState F
  close_at_end spec position final s =
      let closed = leave spec position final.timestamp final.close s in
      record closed { equity_curve = closed.equity_curve ++ (final.timestamp, closed.cash) ∷ [] }

  -- `if position is not None and spec.force_close_at_end`
  unfoldable pub force_close : BacktestSpec F → Candle F → RunState F → RunState F
  force_close spec final s = elim s.position [
    | none ↦ s
    | some position ↦ if spec.force_close_at_end then close_at_end spec position final s else s
  ]

  -- The variables before the loop.
  abbrev pub initial : BacktestSpec F → RunState F
  initial spec = record {
    cash = spec.initial_cash;
    position = none;
    trades = [];
    equity_curve = [];
    exposure_points = 0;
    enter_signal_count = 0;
    exit_signal_count = 0;
  }

module _ {F P : Type 0} ⦃fl : Floats F⦄ where
  -- The loop, from `index`; `rest` holds the candles after it, and the history is the first
  -- `index + 1` candles of `candles`.
  unfoldable pub loop :
      Strategy F P
      → P
      → BacktestSpec F
      → List (Candle F)
      → ℕ
      → List (Candle F)
      → RunState F
      → RunState F
  loop strategy p spec candles index [] s = s
  loop strategy p spec candles index (next ∷ rest) s =
      loop strategy p spec candles (suc index) rest
        (step spec (strategy.signal (take (suc index) candles) p) next s)

  -- The loop over `range(required_history, len(candles) - 1)`.
  unfoldable pub run_bars : Strategy F P → P → BacktestSpec F → List (Candle F) → RunState F
  run_bars strategy p spec candles =
      let index = strategy.required_history p in
      loop strategy p spec candles index (drop (suc index) candles) (initial spec)

-- `candles[-1]`
abbrev pub last_or {ℓ} : {A : Type ℓ} → A → List A → A
last_or x [] = x
last_or x (y ∷ ys) = last_or y ys

module _ {F : Type 0} ⦃fl : Floats F⦄ where
  -- The end of the loop, and the sale at `candles[-1]`.
  abbrev pub finish : BacktestSpec F → List (Candle F) → RunState F → RunState F
  finish spec [] s = s
  finish spec (c ∷ candles) s = force_close spec (last_or c candles) s

abbrev pub outcome_message : ℕ → ℕ → String
outcome_message trade_count enter_count =
    if not (trade_count == 0)
    then "Calculated successfully — "
      +++ decimal trade_count
      +++ " completed trade(s) were produced."
    else if enter_count == 0
    then "Calculated successfully — no eligible SMA crossover occurred in the selected data window."
    else "Calculated successfully — signals occurred, but no complete round-trip trade "
      +++ "was produced under the selected execution assumptions."

-- `_calculated_outcome`
unfoldable pub calculated_outcome : ℕ → ℕ → ℕ → ℕ → ℕ → Result BacktestOutcome
calculated_outcome available required enter_count exit_count trade_count =
    backtest_outcome (record {
      kind =
          if not (trade_count == 0)
          then BacktestOutcomeKind.calculated_with_trades
          else BacktestOutcomeKind.calculated_no_trades;
      message = outcome_message trade_count enter_count;
      available_bar_count = pos available;
      required_history = pos (required + 1);
      enter_signal_count = pos enter_count;
      exit_signal_count = pos exit_count;
      completed_trade_count = pos trade_count;
    })

-- The outcome of `explain` for too few candles.
abbrev pub insufficient_data : ℕ → ℕ → BacktestOutcome
insufficient_data available required = record {
  kind = BacktestOutcomeKind.insufficient_history;
  message =
      "Insufficient history — "
      +++ decimal available
      +++ " bars available; "
      +++ decimal (required + 1)
      +++ " bars required for this strategy revision.";
  available_bar_count = pos available;
  required_history = pos (required + 1);
  enter_signal_count = pos 0;
  exit_signal_count = pos 0;
  completed_trade_count = pos 0;
}

unfoldable pub insufficient_outcome : ℕ → ℕ → Result BacktestOutcome
insufficient_outcome available required = backtest_outcome (insufficient_data available required)

module _ {F : Type 0} ⦃fl : Floats F⦄ where
  -- The result of a run that ended with these variables.
  unfoldable pub result_of :
      BacktestSpec F → String → ℕ → ℕ → RunState F → Result (BacktestResult F)
  result_of spec interval available required s = do
    outcome ←
        calculated_outcome available required s.enter_signal_count s.exit_signal_count
          (length s.trades)
    points ← drawdown_curve spec.initial_cash s.equity_curve
    ok (record {
      spec = spec;
      trades = s.trades;
      equity_curve = s.equity_curve;
      metrics =
          metrics spec.initial_cash s.cash s.trades s.equity_curve s.exposure_points
            (if str_eq interval "1d" then some 252 else none);
      drawdown_curve = points;
      outcome = some outcome;
    })

module _ {F : Type 0} where
  -- `result.outcome`, where there is one.
  unfoldable pub retained_outcome : Option (BacktestResult F) → Result BacktestOutcome
  retained_outcome none =
      err (value_error "a calculated backtest result with outcome context is required")
  retained_outcome (some r) = elim r.outcome [
    | none ↦ err (value_error "a calculated backtest result with outcome context is required")
    | some outcome ↦ ok outcome
  ]

module _ {F P : Type 0} ⦃fl : Floats F⦄ where
  -- `run`
  unfoldable pub run :
      CandleDataset F
      → Strategy F P
      → StrategyParameterRevision P
      → BacktestSpec F
      → Result (BacktestResult F)
  run dataset strategy parameters spec =
      let required = strategy.required_history parameters.parameters in
      do
        raise_if (not (is_research dataset.provenance.use_case))
            (value_error "backtests require a research-use dataset")
        raise_if (not (str_eq dataset.dataset_id spec.dataset_id))
            (value_error "backtest spec dataset does not match supplied dataset")
        raise_if
            (not (str_eq strategy.strategy_id spec.strategy_id)
              || not (str_eq parameters.strategy_id spec.strategy_id))
            (value_error "strategy and parameter revision must match backtest spec")
        raise_if (not (str_eq parameters.revision_id spec.parameter_revision_id))
            (value_error "parameter revision does not match backtest spec")
        raise_if (leb (length dataset.candles) required)
            (value_error "dataset has insufficient history for the strategy")
        result_of spec dataset.interval (length dataset.candles) required (
            finish spec dataset.candles
              (run_bars strategy parameters.parameters spec dataset.candles))

module _ {F P : Type 0} where
  -- `explain`
  unfoldable pub explain :
      CandleDataset F
      → Strategy F P
      → StrategyParameterRevision P
      → Option (BacktestResult F)
      → Result BacktestOutcome
  explain dataset strategy parameters result =
      let required = strategy.required_history parameters.parameters in
      let available = length dataset.candles in
      if leb available required
      then insufficient_outcome available required
      else retained_outcome result
