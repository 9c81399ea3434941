-- ===== src/Blob.antt =====
-- libs/azure-storage/langchain_azure_storage/deepagents: the Deep Agents file system on blobs.
pub mod Library
pub mod Paths
pub mod Service
pub mod Select
pub mod Answers
pub mod Writes
pub mod Reads
mod Examples
