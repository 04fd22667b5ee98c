-- ===== src/Core.antt =====
-- src/free_claude_code/core: what every other package shares.
pub mod GatewayModelIds
pub mod RateLimit
pub mod Streaming
pub mod Thinking
