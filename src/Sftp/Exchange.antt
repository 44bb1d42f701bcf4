-- ===== src/Sftp/Exchange.antt =====
-- The abstract view of the protocol: what a client asks and what a server answers, for the two sides
-- of crates/russh-extra/src/sftp.
pub mod Fields
pub mod Decoding
pub mod Answers
pub mod Serving
pub mod Names
pub mod Replies
pub mod OverTheWire
pub mod Outcomes
pub mod Methods
pub mod Negotiation
