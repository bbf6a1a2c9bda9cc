-- ===== src/Raft/Cluster.antt =====
-- internal/raft/raft.go: a cluster of nodes and the network between them, as far as votes go.
mod Quorum
mod Local
pub mod System
mod Invariant
mod Steps
pub mod Safety
mod Tests
