-- ===== src/Secrets.antt =====
-- The secrets: daemon-secrets/src decides who may have one, core-secrets/src delivers it.
pub mod Acl
pub mod Jit
pub mod Unlock
pub mod Daemon
