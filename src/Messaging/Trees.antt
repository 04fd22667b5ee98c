-- ===== src/Messaging/Trees.antt =====
-- The package src/free_claude_code/messaging/trees.
pub mod Node
pub mod Queue
pub mod Graph
pub mod Runtime
pub mod Tests
