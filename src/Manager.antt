-- ===== src/Manager.antt =====
-- pkg/job-manager.go.
pub mod Keys
pub mod State
pub mod Methods
pub mod Lifecycle
pub mod Registration
pub mod Entries
pub mod Frames
pub mod Coverage
pub mod Collision
pub mod Restart
pub mod Sweep
