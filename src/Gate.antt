-- ===== src/Gate.antt =====
-- dockerls/domain/value_objects/gate.py: what makes a build fail.
pub mod Types
pub mod Parse
pub mod Evaluate
pub mod Merge
