-- ===== src/Client.antt =====
-- crates/russh-extra/src/client.rs: the client's side of a session.
pub mod HostKeys
pub mod Trust
pub mod Persisted
pub mod Command
pub mod Messages
pub mod Output
pub mod Authentication
pub mod Outcome
pub mod Verdict
mod Tests
