-- ===== src/Broker.antt =====
-- internal/broker: the message broker.
pub mod Auth
pub mod Registry
pub mod State
pub mod Router
pub mod Server
pub mod Threads
pub mod Keeps
pub mod History
pub mod Redelivery
pub mod Direct
pub mod Fanout
pub mod Reconnect
pub mod Admission
pub mod Config
pub mod Provenance
