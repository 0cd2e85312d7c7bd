-- ===== src/Protocol.antt =====
-- internal/protocol: the wire format of the messages between peers.
mod Tests
pub mod Message
pub mod Wire
pub mod Slices
pub mod Guards
pub mod Encode
pub mod Decode
pub mod Readers
pub mod RoundTrip
pub mod Framing
pub mod Truncation
pub mod Progress
pub mod Types
pub mod Payloads
pub mod Legality
pub mod Dispatch
