-- ===== src/Event.antt =====
-- core/event.h and core/event.c: the event types, the packed event, its callbacks and its transfer.
pub mod Types
pub mod Callbacks
pub mod Wire
