-- ===== src/Api.antt =====
-- app/api: the control plane. A handler's outcome is a value or one of the errors below.
pub mod Errors
pub mod Auth
pub mod Ids
pub mod Create
pub mod Status
pub mod Stream
pub mod Main
