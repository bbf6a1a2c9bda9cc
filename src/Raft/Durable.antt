-- ===== src/Raft/Durable.antt =====
-- internal/raft/raft.go, `persistLocked`: the hard state file over everything that can happen to a running
-- node.
use uptime_monitor.Prelude.{
  ℕ, ◌+◌, ◌<◌, ◌≡◌, ◌⊎◌, refl, true, Option, inl, inr, List, [], ◌∷◌, arith, All,
}
use uptime_monitor.Raftlog.Bytes.{Bytes}
use uptime_monitor.Raftlog.Error.{ok}
use uptime_monitor.Raftlog.Io.{done}
use uptime_monitor.Raftlog.HardState.{save_hard_state, load_hard_state}
use uptime_monitor.Raftlog.HardState.Laws.{load-save}
use uptime_monitor.Raftlog.Log.{u64}
use uptime_monitor.Raft.Node.{
  Raft, Tick, RequestVoteArgs, RequestVoteReply, AppendEntriesArgs, AppendEntriesReply,
  InstallSnapshotArgs, InstallSnapshotReply,
}
use uptime_monitor.Raft.Roles.{
  start_election, receive_vote, become_follower, notify_state, reset_election_timer,
}
use uptime_monitor.Raft.Replication.{
  receive_append, receive_snapshot, maybe_advance_commit, record_match,
}
use uptime_monitor.Raft.Handlers.{
  handle_request_vote, handle_append_entries, handle_install_snapshot, check_and_append,
  accept_leader,
}
use uptime_monitor.Raft.Life.{propose, apply_next, stop}
use uptime_monitor.Raft.Votes.{
  Input, perform, perform_all, election_timeout, vote_reply, append_reply, snapshot_reply,
  vote_request, append_request, snapshot_request, proposal, apply_turn, stopped,
}
use uptime_monitor.Raft.Commit.{maybe_advance_commit-commits}
use uptime_monitor.Raft.Cluster.System.{IsSaved}

-- A node that runs, whose saves go well, with its term and vote, as uint64, on disk.
abbrev pub IsDurable : Raft → Type 0
IsDurable r =
    (r.hard_state_io ≡ [])
    × (r.id < 18446744073709551616)
    × (r.current_term < 18446744073709551616)
    × (r.voted_for < 18446744073709551616)
    × IsSaved r

abbrev pub StaysDurable : Raft → Type 0
StaysDurable r = (r.closed ≡ true) ⊎ IsDurable r

saved :
    (term voted_for : ℕ) (file : Option Bytes)
    → term < 18446744073709551616
    → voted_for < 18446744073709551616
    → load_hard_state (save_hard_state done (record { term = term; voted_for = voted_for }) file).0
      ≡ ok (record { term = term; voted_for = voted_for })
saved term voted_for file ht hv =
    elim (load-save done (record { term = term; voted_for = voted_for }) file (omega (arith, ht))
      (omega (arith, hv))) [
        | inl good ↦ good
        | inr (same, bad) ↦ absurd (bad (unfold save_hard_state in refl))
      ]

become_follower-StaysDurable :
    (term : ℕ) (r : Raft)
    → term < 18446744073709551616
    → StaysDurable r
    → StaysDurable (become_follower term r)
unfolding become_follower
become_follower-StaysDurable term r fits h =
    ground (arith, h, saved term 0 r.hard_state_file fits (omega arith))

start_election-StaysDurable :
    (t : Tick) (r : Raft) → StaysDurable r → StaysDurable (start_election t r).0
unfolding start_election
start_election-StaysDurable t r (inl gone) = ground (arith, gone)
start_election-StaysDurable t r (inr (io, fits, term, vote, d)) = ground (
  arith,
  io,
  fits,
  term,
  vote,
  d,
  saved (u64 (r.current_term + 1)) r.id r.hard_state_file (omega arith) fits,
)

handle_request_vote-StaysDurable :
    (t : Tick) (args : RequestVoteArgs) (r : Raft)
    → args.term < 18446744073709551616
    → args.candidate_id < 18446744073709551616
    → StaysDurable r
    → StaysDurable (handle_request_vote t args r).0
unfolding handle_request_vote
handle_request_vote-StaysDurable t args r fits cfits h = ground (
  arith,
  h,
  saved args.term 0 r.hard_state_file fits (omega arith),
  saved args.term args.candidate_id (become_follower args.term r).hard_state_file fits cfits,
)

receive_vote-StaysDurable :
    (t : Tick) (term : ℕ) (reply : RequestVoteReply) (count : ℕ) (r : Raft)
    → reply.term < 18446744073709551616
    → StaysDurable r
    → StaysDurable (receive_vote t term reply r count).0
unfolding receive_vote
receive_vote-StaysDurable t term reply count r fits h =
    ground (arith, h, become_follower-StaysDurable reply.term r fits h)

maybe_advance_commit-StaysDurable :
    (r : Raft) → StaysDurable r → StaysDurable (maybe_advance_commit r)
maybe_advance_commit-StaysDurable r h = rw (maybe_advance_commit-commits r) h

receive_append-StaysDurable :
    (t : Tick) (peer term prev count : ℕ) (reply : AppendEntriesReply) (r : Raft)
    → reply.term < 18446744073709551616
    → StaysDurable r
    → StaysDurable (receive_append t peer term prev count reply r)
unfolding receive_append
receive_append-StaysDurable t peer term prev count reply r fits h = ground (
  arith,
  h,
  become_follower-StaysDurable reply.term r fits h,
  maybe_advance_commit-StaysDurable (record_match peer (u64 (prev + count)) r) h,
)

receive_snapshot-StaysDurable :
    (t : Tick) (peer term si : ℕ) (reply : InstallSnapshotReply) (r : Raft)
    → reply.term < 18446744073709551616
    → StaysDurable r
    → StaysDurable (receive_snapshot t peer term si reply r)
unfolding receive_snapshot
receive_snapshot-StaysDurable t peer term si reply r fits h = ground (
  arith,
  h,
  become_follower-StaysDurable reply.term r fits h,
  maybe_advance_commit-StaysDurable (record_match peer si r) h,
)

accept_leader-StaysDurable :
    (t : Tick) (term leader_id : ℕ) (r : Raft)
    → term < 18446744073709551616
    → StaysDurable r
    → StaysDurable (accept_leader t term leader_id r)
unfolding notify_state reset_election_timer
accept_leader-StaysDurable t term leader_id r fits h =
    ground (arith, h, become_follower-StaysDurable term r fits h)

check_and_append-StaysDurable :
    (args : AppendEntriesArgs) (r : Raft)
    → StaysDurable r
    → StaysDurable (check_and_append args r).0
unfolding check_and_append
check_and_append-StaysDurable args r h = ground (arith, h)

handle_append_entries-StaysDurable :
    (t : Tick) (args : AppendEntriesArgs) (r : Raft)
    → args.term < 18446744073709551616
    → StaysDurable r
    → StaysDurable (handle_append_entries t args r).0
unfolding handle_append_entries
handle_append_entries-StaysDurable t args r fits h =
    let good = accept_leader-StaysDurable t args.term args.leader_id r fits h in
    ground (
      arith,
      h,
      good,
      check_and_append-StaysDurable args (accept_leader t args.term args.leader_id r) good,
    )

handle_install_snapshot-StaysDurable :
    (t : Tick) (args : InstallSnapshotArgs) (r : Raft)
    → args.term < 18446744073709551616
    → StaysDurable r
    → StaysDurable (handle_install_snapshot t args r).0
unfolding handle_install_snapshot
handle_install_snapshot-StaysDurable t args r fits h =
    ground (arith, h, accept_leader-StaysDurable t args.term args.leader_id r fits h)

propose-StaysDurable :
    (bytes : Bytes) (r : Raft) → StaysDurable r → StaysDurable (propose bytes r).0
unfolding propose
propose-StaysDurable bytes r h = ground (arith, h)

apply_next-StaysDurable : (r : Raft) → StaysDurable r → StaysDurable (apply_next r)
unfolding apply_next
apply_next-StaysDurable r h = ground (arith, h)

stop-StaysDurable : (r : Raft) → StaysDurable (stop r)
unfolding stop
stop-StaysDurable r = inl refl

-- The terms and ids of messages are uint64.
abbrev pub InRange : Input → Type 0
InRange (vote_reply t term reply count) = reply.term < 18446744073709551616
InRange (append_reply t peer term prev count reply) = reply.term < 18446744073709551616
InRange (snapshot_reply t peer term si reply) = reply.term < 18446744073709551616
InRange (vote_request t args) =
    (args.term < 18446744073709551616) × (args.candidate_id < 18446744073709551616)
InRange (append_request t args) = args.term < 18446744073709551616
InRange (snapshot_request t args) = args.term < 18446744073709551616
InRange _ = Unit

perform-StaysDurable :
    (i : Input) (r : Raft) → InRange i → StaysDurable r → StaysDurable (perform i r)
unfolding perform
perform-StaysDurable (election_timeout t) r fits h = start_election-StaysDurable t r h
perform-StaysDurable (vote_reply t term reply count) r fits h =
    receive_vote-StaysDurable t term reply count r fits h
perform-StaysDurable (append_reply t peer term prev count reply) r fits h =
    receive_append-StaysDurable t peer term prev count reply r fits h
perform-StaysDurable (snapshot_reply t peer term si reply) r fits h =
    receive_snapshot-StaysDurable t peer term si reply r fits h
perform-StaysDurable (vote_request t args) r fits h =
    handle_request_vote-StaysDurable t args r fits.0 fits.1 h
perform-StaysDurable (append_request t args) r fits h =
    handle_append_entries-StaysDurable t args r fits h
perform-StaysDurable (snapshot_request t args) r fits h =
    handle_install_snapshot-StaysDurable t args r fits h
perform-StaysDurable (proposal bytes) r fits h = propose-StaysDurable bytes r h
perform-StaysDurable apply_turn r fits h = apply_next-StaysDurable r h
perform-StaysDurable stopped r fits h = stop-StaysDurable r

perform_all-StaysDurable :
    (is : List Input) (r : Raft) → All InRange is → StaysDurable r → StaysDurable (perform_all is r)
unfolding perform_all
perform_all-StaysDurable [] r fits h = h
perform_all-StaysDurable (i ∷ is) r fits h =
    perform_all-StaysDurable is (perform i r) fits.1 (perform-StaysDurable i r fits.0 h)

-- While a node runs and its saves go well, whatever messages with terms and ids in the range of a
-- uint64 it meets, the hard state file holds its current term and vote, so that a restart at any
-- moment finds both.
pub perform_all-IsDurable :
    (is : List Input) (r : Raft)
    → All InRange is
    → IsDurable r
    → ((perform_all is r).closed ≡ true) ⊎ IsDurable (perform_all is r)
perform_all-IsDurable is r fits h = perform_all-StaysDurable is r fits (inr h)
