-- ===== src/Server.antt =====
-- crates/russh-extra/src/server.rs: the server's side of a session.
pub mod Context
pub mod Runtime
pub mod Auth
pub mod Channels
pub mod Requests
pub mod Forwarding
pub mod Exec
pub mod Event
pub mod Handler
pub mod HostKey
pub mod Builder
pub mod Routes
pub mod Streaming
pub mod Interleaving
pub mod Isolation
pub mod Traffic
pub mod Lifecycle
mod Tests
pub mod Quiet
pub mod Calm
pub mod CalmExec
pub mod Login
pub mod Sessions
pub mod Reachable
pub mod Unauthenticated
pub mod Answers
pub mod AnsweredExec
pub mod Answered
