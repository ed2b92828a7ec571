-- ===== src/Services.antt =====
-- The services behind the resolvers: what they check, write and invalidate.
pub mod Entities
pub mod Roles
pub mod Policies
pub mod Users
pub mod Directory
pub mod Identities
pub mod Memory
