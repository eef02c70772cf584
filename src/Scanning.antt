-- ===== src/Scanning.antt =====
-- Which tags are scanned: dockerls/domain/value_objects/candidate_criteria.py and scan_plan.py.
pub mod Versions
pub mod Criteria
pub mod Lines
pub mod Order
pub mod Plan
