-- ===== src/Examples.antt =====
-- Each theorem at a concrete input.
pub mod Transport
pub mod Runs
pub mod Agents
pub mod Vulnerabilities
pub mod Staff
pub mod Intensities
pub mod Treatments
pub mod Policies
pub mod Alerts
pub mod Schedules
