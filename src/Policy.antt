-- ===== src/Policy.antt =====
-- modules/policy: the policies that a submission is checked against.
pub mod Json
pub mod Types
pub mod Resolvers
pub mod Validator
pub mod History
pub mod Evaluator
pub mod Description
pub mod Engine
pub mod Rules
pub mod Submission
