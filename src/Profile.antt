-- ===== src/Profile.antt =====
-- core-profile/src: the audit log of the profiles, and the choice of the default profile.
pub mod Audit
pub mod Context
pub mod Daemon
