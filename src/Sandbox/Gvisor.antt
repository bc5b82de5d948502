-- ===== src/Sandbox/Gvisor.antt =====
-- app/sandbox/gvisor.py: the runner that drives Docker. Its parts, from the pipes up to `run`.
pub mod Output
pub mod Launch
pub mod Argv
pub mod Loop
pub mod Staging
pub mod Run
