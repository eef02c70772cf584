-- ===== src/Histories.antt =====
-- What was observed of a reference over time: tag_history.py and scan_history.py of
-- dockerls/domain/value_objects/.
pub mod Bounded
pub mod Tags
pub mod Scans
