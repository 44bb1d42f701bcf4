-- ===== src/Sftp.antt =====
-- The SFTP subsystem: crates/russh-extra/src/sftp.
pub mod Wire
pub mod Attrs
pub mod PacketType
pub mod Request
pub mod RequestDecoder
pub mod Status
pub mod Response
pub mod Metadata
pub mod Handler
pub mod Framing
pub mod Server
pub mod Exchange
pub mod Client
mod Tests
pub mod Transfer
