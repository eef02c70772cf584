-- ===== src/Identity.antt =====
-- What names an image: dockerls/domain/value_objects/image_reference.py, image_identity.py,
-- platform.py and measured_identity.py.
pub mod Parts
pub mod Reference
pub mod Platform
pub mod Canonical
pub mod Measured
