-- ===== src/Raft/Life.antt =====
-- internal/raft/raft.go: creating, starting and stopping a node, proposals, and the apply loop.
use uptime_monitor.Prelude.{
  ℕ, ◌+◌, ◌-◌, Bool, true, false, not, ◌||◌, Option, none, some, List, [], ◌∷◌, ◌++◌, ltb, leb,
  ◌==◌, if◌then◌else◌,
}
use uptime_monitor.Time.{zero_time}
use uptime_monitor.Raftlog.Bytes.{Bytes}
use uptime_monitor.Raftlog.Error.{Result, ok, err}
use uptime_monitor.Raftlog.Io.{Outcome}
use uptime_monitor.Raftlog.Entry.{Entry, entry_command}
use uptime_monitor.Raftlog.HardState.{HardState, load_hard_state}
use uptime_monitor.Raftlog.Log.{Log, u64, at, term_at, append, snapshot_data}
use uptime_monitor.Raftlog.Compact.{snapshot, close}
use uptime_monitor.Raftlog.Recover.{Disk, open_log}
use uptime_monitor.Raft.Node.{
  NodeId, follower, Raft, Tick, Config, ApplyMsg, MachineCall, applied, restored,
}
use uptime_monitor.Raft.Roles.{is_leader, reset_election_timer}

new_node : NodeId → List NodeId → Config → Option Bytes → List Outcome → Log → HardState → Raft
new_node id peers cfg file io log hs = record {
  id = id;
  peers = peers;
  cfg = cfg;
  log = log;
  state = follower;
  current_term = hs.term;
  voted_for = hs.voted_for;
  commit_index = 0;
  last_applied = 0;
  leader_id = 0;
  next_index = [];
  match_index = [];
  election_deadline = zero_time;
  closed = false;
  has_apply = false;
  snapshot_fn = none;
  has_restore = false;
  snap_threshold = 0;
  has_on_state = false;
  machine = [];
  notices = [];
  hard_state_file = file;
  hard_state_io = io;
}

with_hard_state : (HardState → Raft) → Result HardState → Result Raft
with_hard_state make (ok hs) = ok (make hs)
with_hard_state make (err e) = err e

with_log : (Log → Result Raft) → Result Log → Result Raft
with_log make (ok l) = make l
with_log make (err e) = err e

-- `New`, over the directory's log, snapshot and hard state files.
unfoldable pub new :
    NodeId → List NodeId → Config → Disk → Option Bytes → List Outcome → List Outcome → Result Raft
unfolding new_node with_hard_state with_log
new id peers cfg d file log_io io =
    with_log
      (λ log. with_hard_state (λ hs. new_node id peers cfg file io log hs) (load_hard_state file))
      (open_log d log_io)

-- `SetApply`, `SetSnapshot` and `SetOnState`.
unfoldable pub set_apply : Raft → Raft
set_apply r = record r { has_apply = true }

unfoldable pub set_snapshot : (List MachineCall → Bytes) → ℕ → Raft → Raft
set_snapshot fn threshold r = record r {
  snapshot_fn = some fn;
  has_restore = true;
  snap_threshold = threshold;
}

unfoldable pub set_on_state : Raft → Raft
set_on_state r = record r { has_on_state = true }

-- `Start`, without the launch of the goroutines.
unfoldable pub start : Tick → Raft → Raft
unfolding reset_election_timer
start t r =
    let si = r.log.snap_index in
    reset_election_timer t (
      if ltb 0 si
      then record r {
        machine =
            if r.has_restore then r.machine ++ restored (snapshot_data r.log) ∷ [] else r.machine;
        last_applied = si;
        commit_index = if ltb r.commit_index si then si else r.commit_index;
      }
      else r)

unfoldable pub stop : Raft → Raft
unfolding close
stop r = record r { closed = true; log = close r.log }

-- The results of `Propose`.
pub record Proposed : Type 0 where
  pub index : ℕ
  pub term : ℕ
  pub is_leader : Bool

abbrev refused : Proposed
refused = record { index = 0; term = 0; is_leader = false }

proposed : Raft → Log × Result Entry → Raft × Proposed
proposed r (l, err _) = (record r { log = l }, refused)
proposed r (l, ok e) =
    (record r { log = l }, record { index = e.index; term = r.current_term; is_leader = true })

unfoldable pub propose : Bytes → Raft → Raft × Proposed
unfolding proposed append
propose bytes r =
    if not (is_leader r.state) || r.closed
    then (r, refused)
    else proposed r (append r.current_term entry_command bytes r.log)

-- `maybeSnapshotLocked`: nothing happens if no snapshot function is set.
snapshot_with : Option (List MachineCall → Bytes) → ℕ → Raft → Raft
snapshot_with none idx r = r
snapshot_with (some fn) idx r =
    let (term, found) = term_at r.log idx in
    if r.snap_threshold == 0
    then r
    else if ltb (u64 (idx + 18446744073709551616 - r.log.snap_index)) r.snap_threshold
    then r
    else if not found
    then r
    else record r { log = (snapshot idx term (fn r.machine) r.log).0 }

unfoldable pub maybe_snapshot : ℕ → Raft → Raft
unfolding snapshot_with
maybe_snapshot idx r = snapshot_with r.snapshot_fn idx r

abbrev msg_of : Entry → ApplyMsg
msg_of e = record { index = e.index; term = e.term; typ = e.typ; bytes = e.bytes }

abbrev pub applied_calls : Bool → Option Entry → List MachineCall
applied_calls true (some e) = applied (msg_of e) ∷ []
applied_calls _ _ = []

-- One turn of `applyLoop`; it waits while the node is closed or nothing is left to apply.
unfoldable pub apply_next : Raft → Raft
unfolding maybe_snapshot
apply_next r =
    if r.closed || leb r.commit_index r.last_applied
    then r
    else let idx = u64 (r.last_applied + 1) in
      maybe_snapshot idx (record r {
        last_applied = idx;
        machine = r.machine ++ applied_calls r.has_apply (at r.log idx);
      })
