-- ===== src/Tests.antt =====
-- The theorems at concrete inputs, and runs of the definitions.
pub mod Data
pub mod Workflow
pub mod Provenance
pub mod Runner
pub mod Attempts
pub mod Agents
pub mod Api
pub mod Create
pub mod Status
pub mod Stream
pub mod Main
pub mod Telemetry
