-- ===== src/Domain.antt =====
-- The data of the service: the enums and rows of prisma/schema.prisma, and the contracts of
-- src/authorization/contracts and src/policies/contracts.
pub mod Enums
pub mod Models
pub mod Contracts
