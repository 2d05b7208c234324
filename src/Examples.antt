-- ===== src/Examples.antt =====
-- The theorems at concrete inputs.
mod OfStore
mod OfAudit
mod OfBroker
mod OfThreads
mod OfEndToEnd
mod OfConfig
mod OfAdapter
mod OfWire
mod OfMcp
mod OfModes
mod OfCc
mod OfCommand
