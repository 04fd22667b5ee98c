-- ===== src/Providers/Admission/Invariant.antt =====
-- What holds of the callers of admission.py at every suspension.
pub mod Sets
pub mod Defs
pub mod Others
pub mod Own
pub mod Steps
