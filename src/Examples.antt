-- ===== src/Examples.antt =====
-- Concrete inputs on which the theorems are applied.
mod Data
mod Scoring
mod Verdict
mod Gate
mod Resilience
mod Network
mod Inheritance
mod Scanning
mod SingleFlight
mod Histories
mod Bases
mod BuildPolicy
mod Identity
mod Exemptions
mod Runs
mod Dockerfile
