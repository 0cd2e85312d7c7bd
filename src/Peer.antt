-- ===== src/Peer.antt =====
-- internal/peer: the connections to other peers.
mod Tests
pub mod Tracker
pub mod Availability
pub mod Connection
pub mod InFlight
pub mod Conversion
pub mod Swarm
pub mod Serving
pub mod Roster
pub mod Handshake
pub mod Joining
pub mod Loops
pub mod Delivery
pub mod Refusal
pub mod Duties
pub mod Reconnect
pub mod Steady
pub mod Mesh
mod Sessions
