-- ===== src/Core.antt =====
-- The deterministic policy crate, crates/kafka-driver-core.
pub mod Identity
pub mod Capability
pub mod Authentication
pub mod Session
pub mod Connection
pub mod Broker
pub mod EndpointDialer
pub mod Endpoint
pub mod BoundedSet
pub mod Canonical
pub mod Resolution
pub mod Directory
pub mod BrokerResolution
pub mod Coordinator
pub mod Metadata
pub mod Bootstrap
