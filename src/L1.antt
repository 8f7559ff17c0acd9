-- ===== src/L1.antt =====
-- src/pkg/l1: the overlay node.
pub mod Memory
pub mod SessionReplay
pub mod Firewall
pub mod KeyRotation
pub mod LinkHealing
pub mod Pacing
pub mod BlindStore
pub mod Qos
pub mod Handshake
pub mod Sessions
pub mod BufferPool
pub mod Router
