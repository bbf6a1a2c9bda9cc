-- ===== src/Raft/Cluster/Tests.antt =====
-- internal/raft/raft.go: an election in a cluster of three, and the theorems on it.
use uptime_monitor.Prelude.{
  ℕ, suc, ◌≡◌, ◌⊎◌, inr, refl, pos, true, false, none, some, List, [], ◌∷◌, ◌==◌, if◌then◌else◌,
  length, arith,
}
use uptime_monitor.Raftlog.HardState.{hard_state_bytes, load_hard_state}
use uptime_monitor.Raftlog.Bytes.{put_be, checksum, get_be}
use uptime_monitor.Raftlog.Log.{Log, at_path, last_index, term_at}
use uptime_monitor.Raft.Node.{follower, Raft, Tick, Config, RequestVoteArgs}
use uptime_monitor.Raft.Roles.{is_leader, majority, start_election, receive_vote}
use uptime_monitor.Raft.Handlers.{handle_request_vote}
use uptime_monitor.Raft.Votes.{Input, election_timeout, vote_reply, vote_request, perform_all}
use uptime_monitor.Raft.Durable.{IsDurable, perform_all-IsDurable}
use uptime_monitor.Raft.Cluster.System.{
  Cluster, started, answered, counts, time_out, request, deliver, Reach, here, next,
}
use uptime_monitor.Raft.Cluster.Safety.{IsInitial, one_leader_per_term}

abbrev cfg : Config
cfg = record {
  election_timeout_min = pos 300;
  election_timeout_max = pos 600;
  heartbeat_interval = pos 100;
  tick_interval = pos 20;
}

abbrev no_log : Log
no_log = record {
  handle = at_path;
  entries = [];
  offsets = [];
  end = 0;
  snap_index = 0;
  snap_term = 0;
  file = [];
  snapshot_file = none;
  io = [];
}

-- The members other than one of 1, 2 and 3.
abbrev peers_of : ℕ → List ℕ
peers_of i = if i == 1 then 2 ∷ 3 ∷ [] else if i == 2 then 1 ∷ 3 ∷ [] else 1 ∷ 2 ∷ []

abbrev node : ℕ → Raft
node i = record {
  id = i;
  peers = peers_of i;
  cfg = cfg;
  log = no_log;
  state = follower;
  current_term = 0;
  voted_for = 0;
  commit_index = 0;
  last_applied = 0;
  leader_id = 0;
  next_index = [];
  match_index = [];
  election_deadline = pos 0;
  closed = false;
  has_apply = true;
  snapshot_fn = none;
  has_restore = false;
  snap_threshold = 0;
  has_on_state = false;
  machine = [];
  notices = [];
  hard_state_file = none;
  hard_state_io = [];
}

abbrev now : Tick
now = record { now = pos 1000; drawn = pos 7 }

abbrev three : List ℕ
three = 1 ∷ 2 ∷ 3 ∷ []

abbrev silent : Cluster
silent = record { nodes = node; ballot = λ v t. 0; counted = λ i t. [] }

abbrev ask : RequestVoteArgs
ask = record { term = 1; candidate_id = 1; last_log_index = 0; last_log_term = 0 }

-- Node 1 times out, node 2 grants its vote, and node 1 counts it.
abbrev asked : Cluster
asked = started 1 silent (start_election now (node 1))

abbrev granted : Cluster
granted = answered 2 1 asked (handle_request_vote now ask (asked.nodes 2))

abbrev elected : Cluster
elected = counts 1 2 1 granted (
    receive_vote now 1 (record { term = 1; vote_granted = true }) (granted.nodes 1)
      (length (granted.counted 1 1)))

silent-IsInitial : IsInitial three silent
silent-IsInitial = record {
  no_zero = refl;
  placed = λ i m. (refl, peers-length i);
  no_votes = λ v t. refl;
  none_counted = λ i t. refl;
  no_leader = λ i m. refl;
}
  where
    peers-length : (i : ℕ) → suc (length (peers_of i)) ≡ 3
    peers-length i = ground arith

silent-Reach : Reach three silent elected
unfolding start_election handle_request_vote receive_vote last_index term_at majority
silent-Reach =
    next
      (next (next here (time_out 1 now silent refl (omega arith)))
        (request 2 now ask asked refl (λ e. ground (arith, e))))
      (deliver 1 2 now 1 (record { term = 1; vote_granted = true }) granted refl refl (inr refl)
        refl)

elected-leads : is_leader (elected.nodes 1).state ≡ true
unfolding start_election handle_request_vote receive_vote last_index term_at majority
elected-leads = refl

abbrev the_leader : ℕ
the_leader = 1

one_leader_per_term_example : the_leader ≡ the_leader
one_leader_per_term_example =
    one_leader_per_term three silent elected the_leader the_leader silent-IsInitial silent-Reach
      refl refl elected-leads elected-leads refl

-- A node in term 1 whose hard state is saved.
abbrev saved : Raft
saved = record (node 1) {
  current_term = 1;
  voted_for = 2;
  hard_state_file = some (hard_state_bytes (record { term = 1; voted_for = 2 }));
}

abbrev inputs : List Input
inputs =
    election_timeout now
    ∷ vote_reply now 2 (record { term = 2; vote_granted = true }) 1
    ∷ vote_request now
        (record { term = 3; candidate_id = 3; last_log_index = 0; last_log_term = 0 })
    ∷ []

saved-IsDurable : IsDurable saved
unfolding load_hard_state hard_state_bytes put_be checksum get_be
saved-IsDurable = (refl, omega arith, omega arith, omega arith, refl)

perform_all-IsDurable_example :
    ((perform_all inputs saved).closed ≡ true) ⊎ IsDurable (perform_all inputs saved)
perform_all-IsDurable_example =
    perform_all-IsDurable inputs saved (tt, (omega arith, ((omega arith, omega arith), tt)))
      saved-IsDurable
