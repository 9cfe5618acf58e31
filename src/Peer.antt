-- ===== src/Peer.antt =====
-- core/peer.h and core/peer.c: one peer and its file transfers.
pub mod Types
pub mod Transfers
