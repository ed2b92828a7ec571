-- ===== src/Evaluators.antt =====
-- The evaluators of src/authorization/evaluators.
pub mod Rbac
pub mod Abac
pub mod Rebac
pub mod PolicyEngine
