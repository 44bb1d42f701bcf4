-- ===== src/Sftp/Client.antt =====
-- crates/russh-extra/src/sftp/client.rs: the SFTP client runtime.
pub mod Responses
pub mod Operations
pub mod Runtime
pub mod Accounting
