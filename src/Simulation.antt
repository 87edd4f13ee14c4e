-- ===== src/Simulation.antt =====
-- The simulation engine of apps/api/src/app/simulation/engine.py: the schedule of one sample, and
-- the composition of actions.
pub mod Input
pub mod Calendar
pub mod Readiness
pub mod Sample
pub mod Actions
pub mod Validation
pub mod Outcomes
pub mod Ranking
pub mod Evaluation
