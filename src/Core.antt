-- ===== src/Core.antt =====
-- src/pkg/core: the node.
pub mod Fsm
pub mod Modes
pub mod Pipeline
pub mod Versions
