-- ===== src/Tests.antt =====
-- Runs of the code at small inputs, and instances of the theorems.
pub mod Patches
pub mod Promotions
pub mod Updates
pub mod Traces
pub mod Devices
pub mod Preflights
pub mod Checks
pub mod Audits
pub mod Machines
pub mod Connections
pub mod Sections
