-- ===== src/Activities.antt =====
-- app/activities: the Temporal activities.
pub mod Sandbox
pub mod Agents
