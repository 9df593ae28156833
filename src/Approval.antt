-- ===== src/Approval.antt =====
-- modules/approval: the approval chain of an expense.
pub mod Routing
pub mod Chain
pub mod Delegation
pub mod Levels
pub mod Queue
pub mod Decision
pub mod Rejection
