-- ===== src/Strategies.antt =====
-- src/algo_manus/domain/strategy.py and src/algo_manus/strategies: the parameter schemas of the
-- strategies, the registry, and the signals of the built-in strategies.
pub mod Schema
pub mod Metadata
pub mod Registry
pub mod Indicators
pub mod Signals
pub mod BuiltIn
pub mod RoundTrips
pub mod Fields
pub mod Readiness
pub mod Accepted
pub mod Acceptance
pub mod Averages
