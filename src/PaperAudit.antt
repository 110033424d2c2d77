-- ===== src/PaperAudit.antt =====
-- src/algo_manus/application/paper_audit.py: the rows that show the retained paper events, and the
-- scopes that select among them.
pub mod Fields
pub mod Scopes
pub mod Timeline
pub mod Service
pub mod Isolation
pub mod Agreement
pub mod Integrity
pub mod Detail
