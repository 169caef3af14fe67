-- ===== src/Tests.antt =====
-- Tests of the definitions and instances of the theorems at concrete inputs.
mod Window
mod Controller
mod Hints
mod Mru
mod Keys
mod Registry
mod Server
mod Framing
mod Secrets
mod Daemon
mod ProfileDaemon
mod Rotation
mod Memory
mod Workspace
mod Unlock
mod Audit
mod Context
