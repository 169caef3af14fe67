-- ===== src/Wm/Controller.antt =====
-- daemon-wm/src/controller.rs: the controller of the overlay, the single owner of its state.
pub mod State
pub mod Activate
pub mod Typing
pub mod Input
pub mod Unlock
pub mod Handle
pub mod Rules
pub mod Valid
pub mod Announce
pub mod Commit
pub mod Password
pub mod History
pub mod Progress
pub mod Cycle
