-- ===== src/Providers.antt =====
-- The package src/free_claude_code/providers.
pub mod Admission
pub mod ChatStream
pub mod Credentials
pub mod KeyRotation
pub mod StreamRecovery
pub mod ToolCalls
