-- ===== src/Expense.antt =====
-- modules/expense: how an expense is written, submitted and reimbursed.
pub mod Support
pub mod Submit
pub mod Reimbursement
pub mod Draft
pub mod Comments
