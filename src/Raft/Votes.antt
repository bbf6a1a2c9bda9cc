-- ===== src/Raft/Votes.antt =====
-- internal/raft/raft.go: terms and votes over everything that can happen to a running node.
use uptime_monitor.Prelude.{
  ℕ, zero, suc, ◌+◌, ◌<◌, ◌≡◌, ◌≢◌, ◌⊎◌, inl, inr, refl, true, false, ◌||◌, Bool-cases, ltb, List,
  [], ◌∷◌, arith,
}
use uptime_monitor.Raftlog.Bytes.{Bytes}
use uptime_monitor.Raftlog.Log.{u64, last_index}
use uptime_monitor.Raft.Node.{
  NodeId, Raft, Tick, RequestVoteArgs, RequestVoteReply, AppendEntriesArgs, AppendEntriesReply,
  InstallSnapshotArgs, InstallSnapshotReply,
}
use uptime_monitor.Raft.Roles.{
  start_election, receive_vote, become_follower, notify_state, reset_election_timer,
}
use uptime_monitor.Raft.Replication.{
  receive_append, receive_snapshot, maybe_advance_commit, consider, consider_from, record_match,
}
use uptime_monitor.Raft.Handlers.{
  handle_request_vote, handle_append_entries, handle_install_snapshot, check_and_append,
  accept_leader,
}
use uptime_monitor.Raft.Life.{propose, apply_next, stop}

-- What can happen to a node between its start and its end, with all that the environment chooses.
pub data Input : Type 0 where
  election_timeout : Tick → Input
  vote_reply : Tick → ℕ → RequestVoteReply → ℕ → Input
  append_reply : Tick → NodeId → ℕ → ℕ → ℕ → AppendEntriesReply → Input
  snapshot_reply : Tick → NodeId → ℕ → ℕ → InstallSnapshotReply → Input
  vote_request : Tick → RequestVoteArgs → Input
  append_request : Tick → AppendEntriesArgs → Input
  snapshot_request : Tick → InstallSnapshotArgs → Input
  proposal : Bytes → Input
  apply_turn : Input
  stopped : Input

unfoldable pub perform : Input → Raft → Raft
perform (election_timeout t) r = (start_election t r).0
perform (vote_reply t term reply count) r = (receive_vote t term reply r count).0
perform (append_reply t peer term prev count reply) r =
    receive_append t peer term prev count reply r
perform (snapshot_reply t peer term si reply) r = receive_snapshot t peer term si reply r
perform (vote_request t args) r = (handle_request_vote t args r).0
perform (append_request t args) r = (handle_append_entries t args r).0
perform (snapshot_request t args) r = (handle_install_snapshot t args r).0
perform (proposal bytes) r = (propose bytes r).0
perform apply_turn r = apply_next r
perform stopped r = stop r

unfoldable pub perform_all : List Input → Raft → Raft
perform_all [] r = r
perform_all (i ∷ is) r = perform_all is (perform i r)

-- The term grows, or it stays and so does a vote that was cast.
abbrev pub VoteKept : Raft → Raft → Type 0
VoteKept r r' =
    (r.current_term < r'.current_term)
    ⊎ (r'.current_term ≡ r.current_term) × ((r.voted_for ≡ 0) ⊎ (r'.voted_for ≡ r.voted_for))

-- Nothing of the term and the vote has changed.
abbrev pub SameVote : Raft → Raft → Type 0
SameVote r r' = (r'.current_term ≡ r.current_term) × (r'.voted_for ≡ r.voted_for)

pub start_election-VoteKept :
    (t : Tick) (r : Raft)
    → suc r.current_term < 18446744073709551616
    → VoteKept r (start_election t r).0
unfolding start_election
start_election-VoteKept t r room = ground arith

pub receive_vote-VoteKept :
    (t : Tick) (term : ℕ) (reply : RequestVoteReply) (count : ℕ) (r : Raft)
    → VoteKept r (receive_vote t term reply r count).0
unfolding receive_vote
receive_vote-VoteKept t term reply count r = ground arith

consider-SameVote : (n : ℕ) (r : Raft) → SameVote r (consider n r)
unfolding consider
consider-SameVote n r = ground arith

consider_from-SameVote : (fuel n last : ℕ) (r : Raft) → SameVote r (consider_from fuel n last r)
unfolding consider_from
consider_from-SameVote zero n last r = (refl, refl)
consider_from-SameVote (suc fuel) n last r =
    ground
      (arith, consider_from-SameVote fuel (u64 (n + 1)) last (consider n r), consider-SameVote n r)

maybe_advance_commit-SameVote : (r : Raft) → SameVote r (maybe_advance_commit r)
unfolding maybe_advance_commit
maybe_advance_commit-SameVote r =
    consider_from-SameVote (last_index r.log + 1) (u64 (r.commit_index + 1)) (last_index r.log) r

pub handle_request_vote-VoteKept :
    (t : Tick) (args : RequestVoteArgs) (r : Raft) → VoteKept r (handle_request_vote t args r).0
unfolding handle_request_vote
handle_request_vote-VoteKept t args r = ground arith

check_and_append-SameVote :
    (args : AppendEntriesArgs) (r : Raft) → SameVote r (check_and_append args r).0
unfolding check_and_append
check_and_append-SameVote args r = ground arith

append_ignored :
    (t : Tick) (args : AppendEntriesArgs) (r : Raft)
    → (r.closed || ltb args.term r.current_term) ≡ true
    → (handle_append_entries t args r).0 ≡ r
unfolding handle_append_entries
append_ignored t args r h = rw h refl

append_taken :
    (t : Tick) (args : AppendEntriesArgs) (r : Raft)
    → (r.closed || ltb args.term r.current_term) ≡ false
    → (handle_append_entries t args r).0
      ≡ (check_and_append args (accept_leader t args.term args.leader_id r)).0
unfolding handle_append_entries
append_taken t args r h = rw h refl

accept_leader-VoteKept :
    (t : Tick) (term : ℕ) (leader_id : NodeId) (r : Raft)
    → VoteKept r (accept_leader t term leader_id r)
unfolding become_follower notify_state reset_election_timer
accept_leader-VoteKept t term leader_id r = ground arith

pub SameVote-after : (r s t : Raft) → VoteKept r s → SameVote s t → VoteKept r t
SameVote-after r s t k same = ground arith

pub handle_append_entries-VoteKept :
    (t : Tick) (args : AppendEntriesArgs) (r : Raft) → VoteKept r (handle_append_entries t args r).0
handle_append_entries-VoteKept t args r =
    elim (Bool-cases (r.closed || ltb args.term r.current_term)) [
      | inl out ↦ rw (append_ignored t args r out) (inr (refl, inr refl))
      | inr in_time ↦ rw (append_taken t args r in_time) (
          SameVote-after r (accept_leader t args.term args.leader_id r)
            (check_and_append args (accept_leader t args.term args.leader_id r)).0
            (accept_leader-VoteKept t args.term args.leader_id r)
            (check_and_append-SameVote args (accept_leader t args.term args.leader_id r)))
    ]

pub handle_install_snapshot-VoteKept :
    (t : Tick) (args : InstallSnapshotArgs) (r : Raft)
    → VoteKept r (handle_install_snapshot t args r).0
unfolding handle_install_snapshot
handle_install_snapshot-VoteKept t args r = ground arith

pub receive_append-VoteKept :
    (t : Tick) (peer : NodeId) (term prev count : ℕ) (reply : AppendEntriesReply) (r : Raft)
    → VoteKept r (receive_append t peer term prev count reply r)
unfolding receive_append
receive_append-VoteKept t peer term prev count reply r =
    ground (arith, maybe_advance_commit-SameVote (record_match peer (u64 (prev + count)) r))

pub receive_snapshot-VoteKept :
    (t : Tick) (peer : NodeId) (term si : ℕ) (reply : InstallSnapshotReply) (r : Raft)
    → VoteKept r (receive_snapshot t peer term si reply r)
unfolding receive_snapshot
receive_snapshot-VoteKept t peer term si reply r =
    ground (arith, maybe_advance_commit-SameVote (record_match peer si r))

pub propose-SameVote : (bytes : Bytes) (r : Raft) → SameVote r (propose bytes r).0
unfolding propose
propose-SameVote bytes r = ground arith

pub apply_next-SameVote : (r : Raft) → SameVote r (apply_next r)
unfolding apply_next
apply_next-SameVote r = ground arith

pub stop-SameVote : (r : Raft) → SameVote r (stop r)
unfolding stop
stop-SameVote r = (refl, refl)

-- Every input keeps the vote, unless the term has run out of numbers.
pub perform-VoteKept :
    (i : Input) (r : Raft) → suc r.current_term < 18446744073709551616 → VoteKept r (perform i r)
unfolding perform
perform-VoteKept (election_timeout t) r room = start_election-VoteKept t r room
perform-VoteKept (vote_reply t term reply count) r room = receive_vote-VoteKept t term reply count r
perform-VoteKept (append_reply t peer term prev count reply) r room =
    receive_append-VoteKept t peer term prev count reply r
perform-VoteKept (snapshot_reply t peer term si reply) r room =
    receive_snapshot-VoteKept t peer term si reply r
perform-VoteKept (vote_request t args) r room = handle_request_vote-VoteKept t args r
perform-VoteKept (append_request t args) r room = handle_append_entries-VoteKept t args r
perform-VoteKept (snapshot_request t args) r room = handle_install_snapshot-VoteKept t args r
perform-VoteKept (proposal bytes) r room =
    SameVote-after r r (propose bytes r).0 (inr (refl, inr refl)) (propose-SameVote bytes r)
perform-VoteKept apply_turn r room =
    SameVote-after r r (apply_next r) (inr (refl, inr refl)) (apply_next-SameVote r)
perform-VoteKept stopped r room =
    SameVote-after r r (stop r) (inr (refl, inr refl)) (stop-SameVote r)

-- No input meets a node whose term is the greatest number.
abbrev pub HasTerms : List Input → Raft → Type 0
HasTerms [] r = Unit
HasTerms (i ∷ is) r = (suc r.current_term < 18446744073709551616) × HasTerms is (perform i r)

VoteKept-trans : (r s t : Raft) → VoteKept r s → VoteKept s t → VoteKept r t
VoteKept-trans r s t k k' = ground arith

-- Whatever happens to a running node, as long as its term has not run out of numbers, its term
-- never falls, and within a term a vote that it has cast stays as it is.
pub perform_all-VoteKept :
    (is : List Input) (r : Raft) → HasTerms is r → VoteKept r (perform_all is r)
unfolding perform_all
perform_all-VoteKept [] r h = inr (refl, inr refl)
perform_all-VoteKept (i ∷ is) r h =
    VoteKept-trans r (perform i r) (perform_all is (perform i r)) (perform-VoteKept i r h.0)
      (perform_all-VoteKept is (perform i r) h.1)

-- A granted vote is written down, in the term of the reply.
pub granted_vote :
    (t : Tick) (args : RequestVoteArgs) (r : Raft)
    → (handle_request_vote t args r).1.vote_granted ≡ true
    → ((handle_request_vote t args r).0.voted_for ≡ args.candidate_id)
      × ((handle_request_vote t args r).0.current_term ≡ (handle_request_vote t args r).1.term)
      × ((r.current_term < (handle_request_vote t args r).1.term)
          ⊎ (r.current_term ≡ (handle_request_vote t args r).1.term)
            × ((r.voted_for ≡ 0) ⊎ (r.voted_for ≡ args.candidate_id)))
unfolding handle_request_vote
granted_vote t args r g = ground arith

-- A node grants its vote to one candidate at most in a term: if it grants the request of a
-- candidate whose id is not 0, and after any further inputs, its term not running out of numbers,
-- grants another with a reply of the same term, both come from the same candidate.
pub one_vote_per_term :
    (t t' : Tick) (args args' : RequestVoteArgs) (is : List Input) (r : Raft)
    → args.candidate_id ≢ 0
    → (handle_request_vote t args r).1.vote_granted ≡ true
    → HasTerms is (handle_request_vote t args r).0
    → (handle_request_vote t' args'
        (perform_all is (handle_request_vote t args r).0)).1.vote_granted
      ≡ true
    → (handle_request_vote t' args' (perform_all is (handle_request_vote t args r).0)).1.term
      ≡ (handle_request_vote t args r).1.term
    → args.candidate_id ≡ args'.candidate_id
one_vote_per_term t t' args args' is r real g terms g' same =
    let r1 = (handle_request_vote t args r).0 in
    let r2 = perform_all is r1 in
    ground (
      arith,
      granted_vote t args r g,
      granted_vote t' args' r2 g',
      perform_all-VoteKept is r1 terms,
    )
