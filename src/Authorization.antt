-- ===== src/Authorization.antt =====
-- modules/authorization: who may do what.
pub mod Types
pub mod Grants
pub mod Access
pub mod Policy
pub mod Mapper
