-- ===== src/Backtest/Trades.antt =====
-- The trades that a backtest returns.
use algo_manus.Prelude.{All, ◌≡◌, subst, sym}
use algo_manus.Prelude.Result.{ok}
use algo_manus.Prelude.Floats.{Floats}
use algo_manus.Market.{CandleDataset}
use algo_manus.Backtest.Contracts.{BacktestSpec, BacktestResult}
use algo_manus.Backtest.Engine.{Strategy, StrategyParameterRevision, run}
use algo_manus.Backtest.Results.{run-Ran}
use algo_manus.Backtest.RoundTrips.{RoundTrip, SoldAfter, finish-RoundTrips}

module _ {F P : Type 0} ⦃fl : Floats F⦄ (dataset : CandleDataset F) (strategy : Strategy F P)
    (parameters : StrategyParameterRevision P) (spec : BacktestSpec F) where
  -- Every trade of a backtest that returns has the specified quantity, and was bought at the open,
  -- with slippage, of the candle after some candles on which the strategy had signalled to buy; it
  -- was sold in the same way on a later signal to sell, or at the close of the last candle where
  -- the specification asks for that; and its gross result and its cost are those of its two prices.
  pub run-RoundTrips :
      {r : BacktestResult F}
      → run dataset strategy parameters spec ≡ ok r
      → All
          (RoundTrip strategy parameters.parameters spec dataset.candles
            (SoldAfter strategy parameters.parameters spec dataset.candles))
          r.trades
  run-RoundTrips {r} h =
      let v = run-Ran dataset strategy parameters spec h in
      subst
        (All (
          RoundTrip strategy parameters.parameters spec dataset.candles
            (SoldAfter strategy parameters.parameters spec dataset.candles)))
        (sym v.shows.trades) (finish-RoundTrips strategy parameters.parameters spec dataset.candles)
