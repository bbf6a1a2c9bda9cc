-- ===== src/Raftlog.antt =====
-- internal/raftlog: the crash-safe log of Raft, its snapshot file and its hard state.
pub mod Bytes
pub mod Error
pub mod Entry
pub mod Record
pub mod Io
pub mod HardState
pub mod SnapshotFile
pub mod Log
pub mod Contiguous
pub mod Sound
pub mod Appending
pub mod Cutting
pub mod Compact
pub mod Compacting
pub mod Recover
pub mod Crash
pub mod Interrupted
mod Tests
