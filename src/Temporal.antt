-- ===== src/Temporal.antt =====
-- app/temporal: the workflow and its policies.
pub mod Policies
pub mod Workflow
pub mod Client
pub mod Worker
