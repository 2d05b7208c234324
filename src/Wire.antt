-- ===== src/Wire.antt =====
-- internal/wire: envelopes, control frames, and the JSON objects that carry them.
pub mod Json
pub mod Runes
pub mod Print
pub mod Fields
pub mod Envelope
pub mod Control
pub mod Transit
pub mod Unquote
pub mod Socket
