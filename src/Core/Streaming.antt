-- ===== src/Core/Streaming.antt =====
-- core/anthropic/streaming and core/anthropic/stream_contracts.py.
pub mod Json
pub mod Block
pub mod Ledger
pub mod Emit
pub mod Contract
pub mod Stack
pub mod Sync
pub mod Follows
pub mod Stopping
pub mod Calls
pub mod Starting
pub mod Emitting
pub mod Closing
pub mod Keeping
pub mod Writing
pub mod Indexes
pub mod Live
pub mod Tools
pub mod Ending
pub mod Once
