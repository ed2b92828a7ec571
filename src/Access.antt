-- ===== src/Access.antt =====
-- Who calls: the principals, their credentials, and the guards in front of the resolvers.
pub mod Contracts
pub mod Texts
pub mod ApiKeys
pub mod Guards
pub mod Jwt
pub mod Login
pub mod Authorities
pub mod Session
