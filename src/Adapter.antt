-- ===== src/Adapter.antt =====
-- internal/adapter: what every adapter mode shares.
pub mod Dedupe
pub mod Client
pub mod Resume
pub mod Outbound
pub mod Generic
pub mod Mode
pub mod Cc
