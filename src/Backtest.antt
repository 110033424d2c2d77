-- ===== src/Backtest.antt =====
-- The bar backtester: src/algo_manus/application/backtesting.py and
-- src/algo_manus/domain/backtest.py.
pub mod Contracts
pub mod Measures
pub mod Engine
pub mod NoLookAhead
pub mod RoundTrips
pub mod Results
pub mod Counts
pub mod Drawdowns
pub mod Trades
