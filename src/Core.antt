-- ===== src/Core.antt =====
-- core/core.c: the thread that reads from the peers, and the directories that core_init makes.
pub mod Startup
pub mod Reading
pub mod Receive
pub mod Routing
pub mod Sending
pub mod UnixSocket
pub mod Connections
pub mod Directories
