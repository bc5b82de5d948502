-- ===== src/Sandbox.antt =====
-- app/sandbox: the trust boundary.
pub mod Runner
pub mod Firecracker
pub mod Gvisor
pub mod Entrypoint
