-- ===== src/Api.antt =====
-- The GraphQL API: the operations of the resolvers with their marks, and what a request passes on
-- its way to a service.
pub mod Calls
pub mod Backend
pub mod Resolvers
pub mod Admission
pub mod Effects
pub mod Changes
pub mod Memory
