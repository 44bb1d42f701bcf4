-- ===== src/Shell.antt =====
-- crates/russh-extra/src/shell.rs: shells and subsystems on a channel of the client.
pub mod Handle
pub mod Reading
pub mod Ending
pub mod AsyncIo
pub mod Streams
pub mod Commands
pub mod Open
pub mod Requests
mod Tests
