-- ===== src/Tests.antt =====
-- Runs at concrete inputs, and the theorems at concrete inputs.
mod Samples
mod Evaluation
mod Caching
mod Races
mod Organization
mod Pipeline
mod Entry
mod Calls
mod Scenarios
mod Sessions
mod Administration
