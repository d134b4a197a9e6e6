-- ===== src/K8sEvents.antt =====
-- processor/k8seventgenerationprocessor: log records about containers, their images, services and
-- vulnerabilities, from the log records that carry Kubernetes manifests.
pub mod Manifests
pub mod Digests
pub mod Constants
pub mod Records
pub mod Reports
pub mod Vulnerabilities
pub mod Pipeline
pub mod Once
pub mod Ends
pub mod Findings
pub mod Times
pub mod Addresses
pub mod Examples
pub mod Containers
