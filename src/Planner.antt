-- ===== src/Planner.antt =====
-- core/planner.py: intelligence to steps, and steps to waves.
pub mod Steps
pub mod Plan
pub mod Schedule
pub mod Run
pub mod Json
pub mod Samples
