-- ===== src/Raft/Cluster/Local.antt =====
-- internal/raft/raft.go: what an input to a node leaves of its place in the cluster and of its lead.
use uptime_monitor.Prelude.{ℕ, ◌+◌, ◌≤◌, ◌≡◌, ◌⊎◌, true, false, arith}
use uptime_monitor.Raftlog.Bytes.{Bytes}
use uptime_monitor.Raftlog.Log.{u64}
use uptime_monitor.Raft.Node.{
  Raft, Tick, RequestVoteArgs, RequestVoteReply, AppendEntriesArgs, AppendEntriesReply,
  InstallSnapshotArgs, InstallSnapshotReply,
}
use uptime_monitor.Raft.Roles.{
  is_leader, majority, start_election, receive_vote, become_follower, notify_state,
  reset_election_timer,
}
use uptime_monitor.Raft.Replication.{
  receive_append, receive_snapshot, maybe_advance_commit, record_match,
}
use uptime_monitor.Raft.Handlers.{
  handle_request_vote, handle_append_entries, handle_install_snapshot, check_and_append,
  accept_leader,
}
use uptime_monitor.Raft.Life.{propose, apply_next, stop}
use uptime_monitor.Raft.Commit.{maybe_advance_commit-commits}

-- The node is still itself among the same peers, and it leads only if it did, in the same term.
abbrev pub Stays : Raft → Raft → Type 0
Stays r r' =
    (r'.id ≡ r.id)
    × (r'.peers ≡ r.peers)
    × ((is_leader r'.state ≡ false)
        ⊎ (is_leader r.state ≡ true) × (r'.current_term ≡ r.current_term))

pub handle_request_vote-Stays :
    (t : Tick) (args : RequestVoteArgs) (r : Raft) → Stays r (handle_request_vote t args r).0
unfolding handle_request_vote
handle_request_vote-Stays t args r = ground arith

pub start_election-Stays : (t : Tick) (r : Raft) → Stays r (start_election t r).0
unfolding start_election
start_election-Stays t r = ground arith

check_and_append-Stays : (args : AppendEntriesArgs) (r : Raft) → Stays r (check_and_append args r).0
unfolding check_and_append
check_and_append-Stays args r = ground arith

accept_leader-Stays :
    (t : Tick) (term leader_id : ℕ) (r : Raft) → Stays r (accept_leader t term leader_id r)
unfolding become_follower notify_state reset_election_timer
accept_leader-Stays t term leader_id r = ground arith

pub handle_append_entries-Stays :
    (t : Tick) (args : AppendEntriesArgs) (r : Raft) → Stays r (handle_append_entries t args r).0
unfolding handle_append_entries
handle_append_entries-Stays t args r = ground (
  arith,
  accept_leader-Stays t args.term args.leader_id r,
  check_and_append-Stays args (accept_leader t args.term args.leader_id r),
)

pub handle_install_snapshot-Stays :
    (t : Tick) (args : InstallSnapshotArgs) (r : Raft)
    → Stays r (handle_install_snapshot t args r).0
unfolding handle_install_snapshot
handle_install_snapshot-Stays t args r = ground arith

maybe_advance_commit-Stays : (r : Raft) → Stays r (maybe_advance_commit r)
maybe_advance_commit-Stays r = rw (maybe_advance_commit-commits r) (ground arith)

pub receive_append-Stays :
    (t : Tick) (peer term prev count : ℕ) (reply : AppendEntriesReply) (r : Raft)
    → Stays r (receive_append t peer term prev count reply r)
unfolding receive_append
receive_append-Stays t peer term prev count reply r =
    ground (arith, maybe_advance_commit-Stays (record_match peer (u64 (prev + count)) r))

pub receive_snapshot-Stays :
    (t : Tick) (peer term si : ℕ) (reply : InstallSnapshotReply) (r : Raft)
    → Stays r (receive_snapshot t peer term si reply r)
unfolding receive_snapshot
receive_snapshot-Stays t peer term si reply r =
    ground (arith, maybe_advance_commit-Stays (record_match peer si r))

pub propose-Stays : (bytes : Bytes) (r : Raft) → Stays r (propose bytes r).0
unfolding propose
propose-Stays bytes r = ground arith

pub apply_next-Stays : (r : Raft) → Stays r (apply_next r)
unfolding apply_next
apply_next-Stays r = ground arith

pub stop-Stays : (r : Raft) → Stays r (stop r)
unfolding stop
stop-Stays r = ground arith

-- A reply makes a leader only with a majority of the votes counted, this one included.
pub receive_vote-Elects :
    (t : Tick) (term : ℕ) (reply : RequestVoteReply) (count : ℕ) (r : Raft)
    → ((receive_vote t term reply r count).0.id ≡ r.id)
        × ((receive_vote t term reply r count).0.peers ≡ r.peers)
        × ((receive_vote t term reply r count).1 ≡ count)
        × ((is_leader (receive_vote t term reply r count).0.state ≡ false)
            ⊎ (is_leader r.state ≡ true)
              × ((receive_vote t term reply r count).0.current_term ≡ r.current_term))
      ⊎ ((receive_vote t term reply r count).0.id ≡ r.id)
        × ((receive_vote t term reply r count).0.peers ≡ r.peers)
        × ((receive_vote t term reply r count).1 ≡ count + 1)
        × (reply.vote_granted ≡ true)
        × (r.current_term ≡ term)
        × ((receive_vote t term reply r count).0.current_term ≡ term)
        × ((is_leader (receive_vote t term reply r count).0.state ≡ false)
            ⊎ (majority r ≤ count + 1))
unfolding receive_vote majority
receive_vote-Elects t term reply count r = ground arith
