-- ===== src/KnownHosts.antt =====
-- crates/russh-extra/src/known_hosts.rs: the store of host keys in memory, and its files.
pub mod Entry
pub mod Store
pub mod Strongest
pub mod Updates
pub mod Words
pub mod Parse
pub mod Files
pub mod Joined
pub mod SavedHost
pub mod Marked
pub mod SavedLine
pub mod Reload
pub mod SameChecks
pub mod Lines
pub mod Loading
mod Tests
mod FileTests
