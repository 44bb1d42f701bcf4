-- ===== src/Sftp/Tests.antt =====
-- Runs of the SFTP subsystem at concrete inputs.
mod Sample
mod Codec
mod Streams
mod Serving
mod Asking
mod Transfers
