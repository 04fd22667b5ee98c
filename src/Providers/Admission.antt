-- ===== src/Providers/Admission.antt =====
-- src/free_claude_code/providers/admission.py: admission, concurrency and coordinated retry.
-- `State` has the objects, `Delay` the backoff, `Gate` the sections of `_wait_for_gate` and the
-- permit, `Attempt` what an attempt does to the controller, `Task` a caller of
-- `open_attempt` with the attempt that it gets, and `System` the callers of one controller.
pub mod State
pub mod Delay
pub mod Gate
pub mod Attempt
pub mod Task
pub mod System
pub mod Invariant
pub mod Safety
mod Tests
