-- ===== src/Workspace.antt =====
-- sesame-workspace: where repositories are cloned, and which profile a folder has.
pub mod Convention
pub mod Config
