-- ===== src/PaperProjection.antt =====
-- src/algo_manus/application/paper_projection.py: the replay of the ledger into a portfolio.
pub mod State
pub mod Evidence
pub mod Round
pub mod Replay
pub mod Dicts
pub mod Conservation
pub mod Money
pub mod Soundness
pub mod Reports
