-- ===== src/Agents.antt =====
-- app/agents: the pure transforms of the pipeline.
pub mod Codegen
pub mod Pipeline
