-- ===== src/Handlers.antt =====
-- core/handlers.c: what the core does on an event.
pub mod World
pub mod Listing
pub mod Sending
pub mod Serving
pub mod Receiving
pub mod Setup
pub mod AddPeer
pub mod FilePart
