-- ===== src/Scenarios.antt =====
-- Concrete runs of the program's parts, and the theorems applied to them.
pub mod ConnectionRuns
pub mod TransportRuns
pub mod BrokerRuns
pub mod DialerRuns
pub mod BootstrapRuns
pub mod CoordinatorRuns
pub mod MetadataRuns
pub mod WaitQueueRuns
