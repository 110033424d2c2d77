-- ===== src/PaperExecution.antt =====
-- src/algo_manus/application/paper_execution.py: the risk-gated paper order service. Its state is
-- the ledger and the event bus; each method is an action on it that may raise.
pub mod Retained
pub mod Consistency
pub mod Events
pub mod Effects
pub mod Operations
pub mod Submission
pub mod Agreement
pub mod Recording
pub mod Admission
pub mod Closing
pub mod Filling
pub mod Simulation
