-- ===== src/Reactor.antt =====
-- The pure parts of the package's reactor, src/reactor.
pub mod WaitQueue
