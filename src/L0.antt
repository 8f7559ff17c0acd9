-- ===== src/L0.antt =====
-- src/pkg/l0: the wire layer.
pub mod Replay
pub mod Identity
pub mod Delegation
pub mod Wire
