-- ===== src/L2.antt =====
-- src/pkg/l2: the mesh.
pub mod SplitBrain
pub mod Kademlia
pub mod Accounting
