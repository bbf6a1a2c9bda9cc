-- ===== src/Raft/Roles.antt =====
-- internal/raft/raft.go: the changes of role, the election timer and the persistent state, all under
-- `mu`, and elections.
use uptime_monitor.Prelude.{
  ℕ, ◌+◌, ◌/◌, Bool, true, false, not, ◌&&◌, ◌||◌, Option, none, some, List, [], ◌∷◌, ◌++◌, ltb,
  leb, ◌==◌, if◌then◌else◌, length, insert, nat_eq, ltb_ℤ, ◌+ℤ◌,
}
use uptime_monitor.Raftlog.Entry.{entry_noop}
use uptime_monitor.Raftlog.HardState.{save_hard_state}
use uptime_monitor.Raftlog.Log.{u64, next_io, last_index, term_at, append}
use uptime_monitor.Raft.Node.{
  NodeId, State, follower, candidate, leader, RequestVoteArgs, RequestVoteReply, Raft, Tick,
}

abbrev pub is_leader : State → Bool
is_leader leader = true
is_leader _ = false

abbrev pub is_candidate : State → Bool
is_candidate candidate = true
is_candidate _ = false

abbrev pub is_follower : State → Bool
is_follower follower = true
is_follower _ = false

unfoldable pub reset_election_timer : Tick → Raft → Raft
reset_election_timer t r = record r {
  election_deadline = t.now +ℤ (r.cfg.election_timeout_min +ℤ t.drawn);
}

-- `electionTicker` starts an election on a tick at which this holds.
unfoldable pub timed_out : Tick → Raft → Bool
timed_out t r = not (is_leader r.state) && ltb_ℤ r.election_deadline t.now

-- `persistLocked`: an error is printed, and nothing else.
unfoldable pub persist : Raft → Raft
persist r =
    if r.closed
    then r
    else let (o, os) = next_io r.hard_state_io in
      record r {
        hard_state_io = os;
        hard_state_file =
            (save_hard_state o (record { term = r.current_term; voted_for = r.voted_for })
              r.hard_state_file).0;
      }

unfoldable pub notify_state : Raft → Raft
notify_state r =
    if r.has_on_state then record r { notices = r.notices ++ (r.state, r.current_term) ∷ [] } else r

unfoldable pub become_follower : ℕ → Raft → Raft
unfolding persist notify_state
become_follower term r =
    let changed = not (is_follower r.state) in
    let r1 =
      if ltb r.current_term term
      then persist (record r { current_term = term; voted_for = 0 })
      else r in
    let r2 = record r1 { state = follower } in if changed then notify_state r2 else r2

set_all : List NodeId → ℕ → List (NodeId × ℕ) → List (NodeId × ℕ)
set_all [] v m = m
set_all (p ∷ ps) v m = set_all ps v (insert p v m)

unfoldable pub become_leader : Raft → Raft
unfolding set_all notify_state
become_leader r = notify_state (record r {
  state = leader;
  leader_id = r.id;
  next_index = set_all r.peers (u64 (last_index r.log + 1)) r.next_index;
  match_index = set_all r.peers 0 r.match_index;
  log = (append r.current_term entry_noop [] r.log).0;
})

-- The results `index` and `term`.
unfoldable pub last_log : Raft → ℕ × ℕ
last_log r = let i = last_index r.log in (i, (term_at r.log i).0)

unfoldable pub majority : Raft → ℕ
majority r = (length r.peers + 1) / 2 + 1

-- `startElection` up to the release of `mu`, with the arguments that go to every peer; the count of
-- the votes starts at 1.
unfoldable pub start_election : Tick → Raft → Raft × Option RequestVoteArgs
unfolding persist reset_election_timer last_log notify_state
start_election t r =
    if is_leader r.state || r.closed
    then (r, none)
    else let r1 = reset_election_timer t (
        persist (record r {
          state = candidate;
          current_term = u64 (r.current_term + 1);
          voted_for = r.id;
        })) in
      let (last_idx, last_term) = last_log r1 in
      (
        notify_state r1,
        some (record {
          term = r1.current_term;
          candidate_id = r.id;
          last_log_index = last_idx;
          last_log_term = last_term;
        }),
      )

-- What a goroutine of `startElection` for the election in `term` does with a reply, with `votes.count`
-- before and after.
unfoldable pub receive_vote : Tick → ℕ → RequestVoteReply → Raft → ℕ → Raft × ℕ
unfolding become_follower reset_election_timer become_leader majority
receive_vote t term reply r count =
    if not (r.current_term == term) || not (is_candidate r.state)
    then (r, count)
    else if ltb r.current_term reply.term
    then (reset_election_timer t (become_follower reply.term r), count)
    else if not reply.vote_granted
    then (r, count)
    else if leb (majority r) (count + 1) && is_candidate r.state
    then (become_leader r, count + 1)
    else (r, count + 1)
