-- ===== src/Strategies/Signals.antt =====
-- src/algo_manus/strategies/sma_crossover.py, rsi_threshold_reversion.py and high_value.py: the
-- parameter schemas of the built-in strategies, their required history and their signals.
pub mod Schemas
pub mod Averages
pub mod Levels
