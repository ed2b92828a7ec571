-- ===== src/Seed.antt =====
-- prisma/seed.ts and prisma/fixtures: the demo tenants.
pub mod Closure
pub mod Rows
pub mod Represented
pub mod Policies
pub mod Tenants
pub mod TenantA
pub mod TenantB
