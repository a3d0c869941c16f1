-- ===== src/Transport.antt =====
-- The sans-I/O transport crate, crates/kafka-driver-transport.
pub mod Write
pub mod Frame
