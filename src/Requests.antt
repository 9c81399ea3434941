-- ===== src/Requests.antt =====
-- Which responses a request may continue (_responses/ of the hosting package).
pub mod Threads
pub mod References
pub mod Parents
pub mod Chains
mod Namespaces
mod Isolation
mod Cache
mod Metadata
mod Examples
