-- ===== src/Application.antt =====
-- The package src/free_claude_code/application.
pub mod Reasoning
pub mod Routing
