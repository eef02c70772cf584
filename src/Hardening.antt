-- ===== src/Hardening.antt =====
-- The two dimensions beside the vulnerabilities: dockerls/domain/entities/image_facts.py and
-- dockerls/domain/value_objects/hardening.py and attack_surface.py.
pub mod Facts
pub mod Factors
pub mod Surface
pub mod Laws
pub mod Order
