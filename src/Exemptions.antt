-- ===== src/Exemptions.antt =====
-- Findings that a repository exempts: dockerls/utils/ignore_file.py, what the use cases do with its
-- rules, and dockerls/domain/value_objects/vex.py.
pub mod Vex
pub mod Rules
pub mod Laws
pub mod Statements
