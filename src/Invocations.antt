-- ===== src/Invocations.antt =====
-- libs/azure-ai/langchain_azure_ai/agents/hosting/_invocation_store.py: the latest status envelope of
-- each invocation, in files or in a Foundry state store.
pub mod Values
pub mod Records
pub mod Errors
pub mod Files
pub mod Foundry
pub mod Histories
mod Contract
mod Examples
