-- ===== src/Risk.antt =====
-- The risk checks of a paper order: src/algo_manus/domain/risk.py (`Intent`, `Policy`),
-- src/algo_manus/domain/risk_engine.py (`Engine`) and the durable controls (`Controls`).
pub mod Intent
pub mod Policy
pub mod Engine
pub mod Controls
