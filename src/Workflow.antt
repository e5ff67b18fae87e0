-- ===== src/Workflow.antt =====
-- Workflows: rules with a condition and an action, run on an event (src/modules/rules, engine, triggers).
pub mod Json
pub mod Rules
pub mod Tables
pub mod Checkpoint
pub mod Engine
pub mod Triggers
