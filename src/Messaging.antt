-- ===== src/Messaging.antt =====
-- src/free_claude_code/messaging: conversations that arrive from chat platforms.
pub mod Trees
