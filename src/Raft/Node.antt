-- ===== src/Raft/Node.antt =====
-- internal/raft/raft.go: the state of a node and the messages between nodes.
use uptime_monitor.Prelude.{ℕ, Bool, Option, List}
use uptime_monitor.Time.{Time, Duration}
use uptime_monitor.Raftlog.Bytes.{Bytes}
use uptime_monitor.Raftlog.Entry.{Entry, EntryType}
use uptime_monitor.Raftlog.Io.{Outcome}
use uptime_monitor.Raftlog.Log.{Log}

-- 1-based; 0 is "none".
abbrev pub NodeId : Type 0
NodeId = ℕ

pub data State : Type 0 where
  follower candidate leader : State

pub record ApplyMsg : Type 0 where
  pub index : ℕ
  pub term : ℕ
  pub typ : EntryType
  pub bytes : Bytes

pub record RequestVoteArgs : Type 0 where
  pub term : ℕ
  pub candidate_id : NodeId
  pub last_log_index : ℕ
  pub last_log_term : ℕ

pub record RequestVoteReply : Type 0 where
  pub term : ℕ
  pub vote_granted : Bool

pub record AppendEntriesArgs : Type 0 where
  pub term : ℕ
  pub leader_id : NodeId
  pub prev_log_index : ℕ
  pub prev_log_term : ℕ
  pub entries : List Entry
  pub leader_commit : ℕ

pub record AppendEntriesReply : Type 0 where
  pub term : ℕ
  pub success : Bool
  pub conflict_term : ℕ
  pub conflict_index : ℕ

pub record InstallSnapshotArgs : Type 0 where
  pub term : ℕ
  pub leader_id : NodeId
  pub last_included_index : ℕ
  pub last_included_term : ℕ
  pub bytes : Option Bytes  -- nil if the snapshot file cannot be read

pub record InstallSnapshotReply : Type 0 where
  pub term : ℕ

pub record Config : Type 0 where
  pub election_timeout_min : Duration
  pub election_timeout_max : Duration
  pub heartbeat_interval : Duration
  pub tick_interval : Duration

-- The calls of the state machine's callbacks `apply` and `restoreFn`.
pub data MachineCall : Type 0 where
  applied : ApplyMsg → MachineCall
  restored : Option Bytes → MachineCall

-- The mutex, the condition variable and the channels are not kept: a function below is what runs
-- between taking and releasing `mu`. Of the callbacks the node keeps whether they are set, and their
-- calls so far; `snapshotFn` serialises what these calls made of the state machine.
pub record Raft : Type 0 where
  pub id : NodeId
  pub peers : List NodeId
  pub cfg : Config
  pub log : Log
  pub state : State
  pub current_term : ℕ  -- uint64
  pub voted_for : NodeId
  pub commit_index : ℕ  -- uint64
  pub last_applied : ℕ  -- uint64
  pub leader_id : NodeId
  pub next_index : List (NodeId × ℕ)
  pub match_index : List (NodeId × ℕ)
  pub election_deadline : Time
  pub closed : Bool
  pub has_apply : Bool
  pub snapshot_fn : Option (List MachineCall → Bytes)
  pub has_restore : Bool
  pub snap_threshold : ℕ  -- uint64
  pub has_on_state : Bool
  pub machine : List MachineCall
  pub notices : List (State × ℕ)
  -- The file `hardstate` of `dir`, and how the next saves of it will end.
  pub hard_state_file : Option Bytes
  pub hard_state_io : List Outcome

-- The clock's time and what `rng.Int63n` draws, from 0 to the span of the timeouts.
pub record Tick : Type 0 where
  pub now : Time
  pub drawn : Duration
