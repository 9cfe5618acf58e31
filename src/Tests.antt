-- ===== src/Tests.antt =====
-- The theorems at concrete inputs.
mod Events
mod Transfers
mod Listeners
mod Folders
mod Peers
mod Contents
mod Handling
mod Connections
pub mod Web
mod Answers
mod Download
mod Reading
pub mod Json
mod Cli
mod Keys
