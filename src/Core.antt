-- ===== src/Core.antt =====
-- crates/russh-extra-core: the types that the client and the server share.
pub mod Error
pub mod Endpoint
pub mod Config
pub mod Authority
