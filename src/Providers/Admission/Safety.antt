-- ===== src/Providers/Admission/Safety.antt =====
-- What the invariants of admission.py mean for its callers.
pub mod Recovery
pub mod Budget
pub mod Slots
pub mod Exhaustion
