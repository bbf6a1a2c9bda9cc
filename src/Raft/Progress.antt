-- ===== src/Raft/Progress.antt =====
-- internal/raft/raft.go: the commit index and the last applied index over everything that can happen to
-- a running node.
use uptime_monitor.Prelude.{ℕ, ◌+◌, ◌≤◌, ◌≡◌, ◌⊎◌, List, [], ◌∷◌, arith}
use uptime_monitor.Raftlog.Bytes.{Bytes}
use uptime_monitor.Raftlog.Log.{u64}
use uptime_monitor.Raft.Node.{
  Raft, Tick, RequestVoteArgs, RequestVoteReply, AppendEntriesArgs, AppendEntriesReply,
  InstallSnapshotArgs, InstallSnapshotReply,
}
use uptime_monitor.Raft.Roles.{
  start_election, receive_vote, become_follower, notify_state, reset_election_timer,
}
use uptime_monitor.Raft.Replication.{
  receive_append, receive_snapshot, maybe_advance_commit, record_match,
}
use uptime_monitor.Raft.Handlers.{
  handle_request_vote, handle_append_entries, handle_install_snapshot, check_and_append,
  accept_leader,
}
use uptime_monitor.Raft.Life.{propose, apply_next, stop}
use uptime_monitor.Raft.Votes.{
  Input, perform, perform_all, election_timeout, vote_reply, append_reply, snapshot_reply,
  vote_request, append_request, snapshot_request, proposal, apply_turn, stopped,
}
use uptime_monitor.Raft.Commit.{
  HasRoom, maybe_advance_commit-IsCommittable, maybe_advance_commit-last_applied,
}

-- The commit index has not gone back, and the last applied index is still within it if it was.
abbrev pub Advances : Raft → Raft → Type 0
Advances r r' =
    (r.commit_index ≤ r'.commit_index)
    × ((r'.last_applied ≡ r.last_applied) ⊎ (r'.last_applied ≤ r'.commit_index))

start_election-Advances : (t : Tick) (r : Raft) → Advances r (start_election t r).0
unfolding start_election
start_election-Advances t r = ground arith

receive_vote-Advances :
    (t : Tick) (term : ℕ) (reply : RequestVoteReply) (count : ℕ) (r : Raft)
    → Advances r (receive_vote t term reply r count).0
unfolding receive_vote
receive_vote-Advances t term reply count r = ground arith

handle_request_vote-Advances :
    (t : Tick) (args : RequestVoteArgs) (r : Raft) → Advances r (handle_request_vote t args r).0
unfolding handle_request_vote
handle_request_vote-Advances t args r = ground arith

check_and_append-Advances :
    (args : AppendEntriesArgs) (r : Raft) → Advances r (check_and_append args r).0
unfolding check_and_append
check_and_append-Advances args r = ground arith

accept_leader-Advances :
    (t : Tick) (term leader_id : ℕ) (r : Raft) → Advances r (accept_leader t term leader_id r)
unfolding become_follower notify_state reset_election_timer
accept_leader-Advances t term leader_id r = ground arith

handle_append_entries-Advances :
    (t : Tick) (args : AppendEntriesArgs) (r : Raft) → Advances r (handle_append_entries t args r).0
unfolding handle_append_entries
handle_append_entries-Advances t args r = ground (
  arith,
  accept_leader-Advances t args.term args.leader_id r,
  check_and_append-Advances args (accept_leader t args.term args.leader_id r),
)

handle_install_snapshot-Advances :
    (t : Tick) (args : InstallSnapshotArgs) (r : Raft)
    → Advances r (handle_install_snapshot t args r).0
unfolding handle_install_snapshot
handle_install_snapshot-Advances t args r = ground arith

maybe_advance_commit-Advances : (r : Raft) → HasRoom r → Advances r (maybe_advance_commit r)
maybe_advance_commit-Advances r room =
    ground (arith, maybe_advance_commit-IsCommittable r room, maybe_advance_commit-last_applied r)

receive_append-Advances :
    (t : Tick) (peer term prev count : ℕ) (reply : AppendEntriesReply) (r : Raft)
    → HasRoom r
    → Advances r (receive_append t peer term prev count reply r)
unfolding receive_append
receive_append-Advances t peer term prev count reply r room =
    ground (arith, maybe_advance_commit-Advances (record_match peer (u64 (prev + count)) r) room)

receive_snapshot-Advances :
    (t : Tick) (peer term si : ℕ) (reply : InstallSnapshotReply) (r : Raft)
    → HasRoom r
    → Advances r (receive_snapshot t peer term si reply r)
unfolding receive_snapshot
receive_snapshot-Advances t peer term si reply r room =
    ground (arith, maybe_advance_commit-Advances (record_match peer si r) room)

propose-Advances : (bytes : Bytes) (r : Raft) → Advances r (propose bytes r).0
unfolding propose
propose-Advances bytes r = ground arith

apply_next-Advances : (r : Raft) → Advances r (apply_next r)
unfolding apply_next
apply_next-Advances r = ground arith

stop-Advances : (r : Raft) → Advances r (stop r)
unfolding stop
stop-Advances r = ground arith

perform-Advances : (i : Input) (r : Raft) → HasRoom r → Advances r (perform i r)
unfolding perform
perform-Advances (election_timeout t) r room = start_election-Advances t r
perform-Advances (vote_reply t term reply count) r room = receive_vote-Advances t term reply count r
perform-Advances (append_reply t peer term prev count reply) r room =
    receive_append-Advances t peer term prev count reply r room
perform-Advances (snapshot_reply t peer term si reply) r room =
    receive_snapshot-Advances t peer term si reply r room
perform-Advances (vote_request t args) r room = handle_request_vote-Advances t args r
perform-Advances (append_request t args) r room = handle_append_entries-Advances t args r
perform-Advances (snapshot_request t args) r room = handle_install_snapshot-Advances t args r
perform-Advances (proposal bytes) r room = propose-Advances bytes r
perform-Advances apply_turn r room = apply_next-Advances r
perform-Advances stopped r room = stop-Advances r

-- Before each input, the commit index and the last index are below the greatest uint64.
abbrev pub HasIndexes : List Input → Raft → Type 0
HasIndexes [] r = Unit
HasIndexes (i ∷ is) r = HasRoom r × HasIndexes is (perform i r)

-- Whatever happens to a running node whose commit index and last index stay below the greatest
-- uint64, its commit index never goes back, and it applies no entry past the commit index: if the
-- last applied index is within the commit index, it stays so.
pub perform_all-Advances :
    (is : List Input) (r : Raft)
    → HasIndexes is r
    → r.last_applied ≤ r.commit_index
    → (r.commit_index ≤ (perform_all is r).commit_index)
      × ((perform_all is r).last_applied ≤ (perform_all is r).commit_index)
unfolding perform_all
perform_all-Advances [] r rooms h = (omega arith, h)
perform_all-Advances (i ∷ is) r (room, rooms) h =
    let step = perform-Advances i r room in
    let (a, b) = perform_all-Advances is (perform i r) rooms (ground (arith, step, h)) in
    (omega (arith, step.0, a), b)
