-- ===== src/Checkpoints.antt =====
-- Request-local reuse of checkpoints (_checkpoint/_checkpoint_reuse.py of the hosting package).
pub mod Config
pub mod Serialized
mod Restored
pub mod Reuse
pub mod Reads
pub mod Reach
pub mod Steps
pub mod Calls
pub mod Fresh
pub mod Preserved
pub mod Invalidated
pub mod Hits
pub mod Runs
pub mod Ended
pub mod Examples
