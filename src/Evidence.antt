-- ===== src/Evidence.antt =====
-- What the scanners and the registries established about an image: dockerls/domain/value_objects/
-- tristate.py, dockerls/domain/entities/vulnerability.py and scan_result.py.
pub mod Tristate
pub mod Vulnerability
pub mod Scan
pub mod Image
