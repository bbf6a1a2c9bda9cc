-- ===== src/Raft.antt =====
-- internal/raft/raft.go: one node of the Raft cluster.
pub mod Node
pub mod Roles
pub mod Replication
pub mod Handlers
pub mod Life
pub mod Votes
pub mod Commit
pub mod Merge
pub mod Accepted
pub mod Progress
pub mod Cluster
pub mod Durable
mod Tests
