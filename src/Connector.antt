-- ===== src/Connector.antt =====
-- connector/solarwindsentityconnector: the connector that turns telemetry into entity and
-- relationship events. Its parts stand in the modules below.
pub mod Pdata
pub mod Config
pub mod Attributes
pub mod Events
pub mod Keys
pub mod Mapper
pub mod Detector
pub mod Storage
pub mod Manager
pub mod Handlers
pub mod Samples
mod Examples
