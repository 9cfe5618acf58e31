-- ===== src/Peers.antt =====
-- core/peermanager.c: the array of peers, its iterator, and the descriptor sets of the core's
-- select calls. The mutexes are not modelled: each operation is one step.
pub mod Sockets
pub mod ForEach
pub mod Table
