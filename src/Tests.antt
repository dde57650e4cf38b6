-- ===== src/Tests.antt =====
-- Concrete inputs that the theorems apply to.
pub mod Instances
pub mod Agents
pub mod Compares
pub mod Deploys
pub mod Reports
pub mod Scans
pub mod Metrics
pub mod Users
pub mod Servers
pub mod Starts
pub mod Trusts
pub mod Schedules
pub mod Remotes
pub mod Webs
