-- ===== src/Solarwinds.antt =====
-- processor/solarwindsprocessor: the attributes of the host, of the collector and of the
-- configuration that every signal gets.
pub mod HostAttributes
pub mod Processor
pub mod Extension
pub mod Expected
pub mod Writes
pub mod Decorated
pub mod Started
mod Examples
