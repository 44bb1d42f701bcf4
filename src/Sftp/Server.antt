-- ===== src/Sftp/Server.antt =====
-- crates/russh-extra/src/sftp/server.rs: the SFTP server runtime.
pub mod Runtime
pub mod Handlers
pub mod Dispatch
pub mod Local
pub mod Invariant
pub mod Feeding
pub mod Chunks
