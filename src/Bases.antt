-- ===== src/Bases.antt =====
-- The base images that a Dockerfile declares: dockerls/domain/value_objects/base_upgrade.py.
pub mod Reference
pub mod Lines
pub mod Variables
pub mod Upgrade
