-- ===== src/Wm.antt =====
-- daemon-wm: the window switcher.
pub mod Config
pub mod Hints
pub mod Mru
pub mod Snapshot
pub mod Controller
pub mod Keys
