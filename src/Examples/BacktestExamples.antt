-- ===== src/Examples/BacktestExamples.antt =====
-- The theorems on datasets and backtests at four candles, over which a strategy buys on the first
-- signal and sells on the third.
use algo_manus.Prelude.{
  ℕ, suc, true, none, List, [], ◌∷◌, ◌++◌, ◌≡◌, ◌↔◌, refl, arith, length, map, All,
}
use algo_manus.Prelude.Int.{ℤ, pos, ◌+ℤ◌, ◌-ℤ◌, ◌*ℤ◌, neg_ℤ, abs_ℤ}
use algo_manus.Prelude.Text.{is_blank, is_space}
use algo_manus.Prelude.Result.{ok, err}
use algo_manus.Prelude.Floats.{whole}
use algo_manus.Prelude.Time.{at}
use algo_manus.Market.{Candle, CandleDataset, DataSourceKind, DataUseCase, candle_dataset}
use algo_manus.Market.Ordering.{IsPinned, candle_dataset_iff}
use algo_manus.Backtest.Contracts.{
  BacktestSpec, BacktestResult, backtest_outcome, net_pnl, drawdown_point,
}
use algo_manus.Backtest.Measures.{
  max_drawdown, drawdown_curve, returns_from, equity_returns, cagr_pct, sharpe_ratio, sortino_ratio,
  metrics,
}
use algo_manus.Backtest.Engine.{
  SignalAction, Strategy, StrategyParameterRevision, apply_slippage, cost_of, close_position, enter,
  leave, trade_on, mark, step, force_close, loop, run_bars, calculated_outcome, result_of, run,
}
use algo_manus.Backtest.NoLookAhead.{Extends, run_bars-Extends}
use algo_manus.Backtest.RoundTrips.{RoundTrip, SoldAfter}
use algo_manus.Backtest.Trades.{run-RoundTrips}
use algo_manus.Backtest.Counts.{IsTallied, run-IsTallied}
use algo_manus.Backtest.Drawdowns.{deepest_of, equity_point, run-deepest_of}

-- A candle that opens and closes at these prices.
abbrev bar : ℕ → ℕ → ℕ → Candle ℤ
bar time first last = record {
  timestamp = at time;
  open_price = pos first;
  high = pos 9;
  low = pos 1;
  close = pos last;
  volume = pos 1;
}

abbrev pub early : List (Candle ℤ)
early = bar 1 5 5 ∷ bar 2 5 6 ∷ []

abbrev pub late : List (Candle ℤ)
late = bar 3 6 4 ∷ bar 4 7 8 ∷ []

abbrev dataset : CandleDataset ℤ
dataset = record {
  dataset_id = "d-1";
  instrument_id = "INFY";
  interval = "1h";
  provenance = record {
    source_name = "fixture";
    source_kind = DataSourceKind.fixture;
    source_uri = "file";
    retrieved_at = at 9;
    raw_content_sha256 = "-";
    adjustment_basis = "none";
    use_case = DataUseCase.research;
  };
  candles = early ++ late;
}

candle_dataset_iff_example :
    (candle_dataset dataset ≡ ok dataset) ↔ (IsPinned dataset × (dataset ≡ dataset))
candle_dataset_iff_example = candle_dataset_iff dataset dataset

abbrev on_third : ℕ → SignalAction
on_third ℕ.zero = SignalAction.hold
on_third (suc ℕ.zero) = SignalAction.enter_long
on_third (suc (suc ℕ.zero)) = SignalAction.hold
on_third _ = SignalAction.exit_long

abbrev strategy : Strategy ℤ ℕ
strategy = record {
  strategy_id = "by-count";
  required_history = λ n. n;
  signal = λ candles _. on_third (length candles);
}

abbrev parameters : ℕ → StrategyParameterRevision ℕ
parameters n = record { strategy_id = "by-count"; revision_id = "r-1"; parameters = n }

abbrev spec : BacktestSpec ℤ
spec = record {
  dataset_id = "d-1";
  strategy_id = "by-count";
  parameter_revision_id = "r-1";
  initial_cash = pos 100;
  quantity = pos 10;
  commission_bps = pos 0;
  slippage_bps = pos 0;
  force_close_at_end = true;
}

run_bars-Extends_example :
    Extends
      (run_bars ⦃fl = whole⦄ strategy 0 spec early)
      (run_bars ⦃fl = whole⦄ strategy 0 spec (early ++ late))
run_bars-Extends_example = run_bars-Extends ⦃fl = whole⦄ strategy 0 spec early late

-- A result without trades, in the place of an exception.
abbrev blank : BacktestResult ℤ
blank = record {
  spec = spec;
  trades = [];
  equity_curve = [];
  metrics = metrics ⦃fl = whole⦄ (pos 1) (pos 1) [] [] 0 none;
  drawdown_curve = [];
  outcome = none;
}

abbrev result : BacktestResult ℤ
result = elim (run ⦃fl = whole⦄ dataset strategy (parameters 0) spec) [ ok r ↦ r | err e ↦ blank ]

run-RoundTrips_example :
    All
      (RoundTrip ⦃fl = whole⦄ strategy 0 spec dataset.candles
        (SoldAfter ⦃fl = whole⦄ strategy 0 spec dataset.candles))
      result.trades
unfolding run run_bars loop step mark trade_on enter leave force_close close_position cost_of
    apply_slippage result_of calculated_outcome backtest_outcome drawdown_curve drawdown_point
    is_blank is_space max_drawdown equity_returns returns_from cagr_pct sharpe_ratio sortino_ratio
    metrics net_pnl whole ◌+ℤ◌ ◌-ℤ◌ ◌*ℤ◌ neg_ℤ abs_ℤ
run-RoundTrips_example =
    run-RoundTrips ⦃fl = whole⦄ dataset strategy (parameters 0) spec {r = result} refl

run-IsTallied_example : IsTallied ⦃fl = whole⦄ dataset strategy (parameters 0) spec result
unfolding run run_bars loop step mark trade_on enter leave force_close close_position cost_of
    apply_slippage result_of calculated_outcome backtest_outcome drawdown_curve drawdown_point
    is_blank is_space max_drawdown equity_returns returns_from cagr_pct sharpe_ratio sortino_ratio
    metrics net_pnl whole ◌+ℤ◌ ◌-ℤ◌ ◌*ℤ◌ neg_ℤ abs_ℤ
run-IsTallied_example =
    run-IsTallied ⦃fl = whole⦄ dataset strategy (parameters 0) spec {r = result} refl

run-deepest_of_example :
    (map (equity_point ⦃fl = whole⦄) result.drawdown_curve ≡ result.equity_curve)
    × (result.metrics.max_drawdown_pct ≡ deepest_of ⦃fl = whole⦄ (pos 0) result.drawdown_curve)
unfolding run run_bars loop step mark trade_on enter leave force_close close_position cost_of
    apply_slippage result_of calculated_outcome backtest_outcome drawdown_curve drawdown_point
    is_blank is_space max_drawdown equity_returns returns_from cagr_pct sharpe_ratio sortino_ratio
    metrics net_pnl whole ◌+ℤ◌ ◌-ℤ◌ ◌*ℤ◌ neg_ℤ abs_ℤ
run-deepest_of_example =
    run-deepest_of ⦃fl = whole⦄ dataset strategy (parameters 0) spec (λ x h. ground arith)
      {r = result} refl
