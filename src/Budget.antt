-- ===== src/Budget.antt =====
-- modules/budget: the annual budget of each department and what is committed against it.
pub mod Period
pub mod Sync
pub mod Ledger
pub mod Usage
pub mod Evaluation
pub mod Books
pub mod Drafts
pub mod Administration
