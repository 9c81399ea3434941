-- ===== src/Savers.antt =====
-- Checkpoints kept in Foundry state stores (_checkpoint/_foundry_checkpoint_saver.py of the hosting
-- package).
pub mod Keys
pub mod Store
pub mod Saver
pub mod Reads
pub mod Listings
pub mod Writes
mod Paging
mod Latest
mod Sorted
mod RoundTrip
mod Limits
mod Retries
mod Deletion
mod Indices
mod FirstWrites
mod ListStore
