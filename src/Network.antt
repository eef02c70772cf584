-- ===== src/Network.antt =====
-- Where requests may go: dockerls/domain/value_objects/network_policy.py and
-- dockerls/infrastructure/network/host_guard.py.
pub mod Address
pub mod Policy
pub mod Ranges
pub mod Destinations
pub mod Guard
