-- ===== src/Ipc.antt =====
-- core-ipc/src: what the bus between the daemons keeps of them.
pub mod Registry
pub mod Server
pub mod Framing
