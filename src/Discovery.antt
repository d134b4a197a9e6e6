-- ===== src/Discovery.antt =====
-- receiver/swok8sdiscovery: databases among the pods and the services of a cluster.
pub mod Services
pub mod Workloads
pub mod Rules
pub mod Images
pub mod Domains
pub mod Events
pub mod Cycle
pub mod Examples
pub mod Ports
pub mod Identities
pub mod Once
pub mod Matches
