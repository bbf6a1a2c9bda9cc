-- ===== src/Raft/Tests.antt =====
-- internal/raft/raft.go: runs at concrete inputs, and the theorems at such inputs.
use uptime_monitor.Prelude.{
  ℕ, ◌-◌, ◌≡◌, ◌⊎◌, ◌<◌, ◌≤◌, inl, refl, pos, true, false, none, List, [], ◌∷◌, ◌++◌, take, drop,
  length, arith,
}
use uptime_monitor.Raftlog.Entry.{Entry, entry_command, Fits}
use uptime_monitor.Raftlog.Record.{encode_all, starts}
use uptime_monitor.Raftlog.Log.{Log, append, at_path, last_index, term_at}
use uptime_monitor.Raftlog.Sound.{IsSound}
use uptime_monitor.Raft.Node.{
  State, follower, leader, Raft, Tick, Config, RequestVoteArgs, AppendEntriesArgs,
}
use uptime_monitor.Raft.Roles.{majority, last_log, start_election, receive_vote}
use uptime_monitor.Raft.Life.{apply_next}
use uptime_monitor.Raft.Replication.{maybe_advance_commit}
use uptime_monitor.Raft.Handlers.{handle_request_vote, handle_append_entries}
use uptime_monitor.Raft.Votes.{
  Input, election_timeout, vote_reply, vote_request, apply_turn, perform, perform_all, HasTerms,
  one_vote_per_term,
}
use uptime_monitor.Raft.Commit.{
  HasRoom, IsCommittable, maybe_advance_commit-IsCommittable, maybe_advance_commit_greatest,
}
use uptime_monitor.Raft.Merge.{Holds, merged}
use uptime_monitor.Raft.Accepted.{handle_append_entries-Merges}
use uptime_monitor.Raft.Progress.{HasIndexes, perform_all-Advances}

abbrev entry_at : ℕ → ℕ → Entry
entry_at i t = record { index = i; term = t; typ = entry_command; bytes = [] }

abbrev two : List Entry
two = entry_at 1 1 ∷ entry_at 2 1 ∷ []

abbrev log_two : Log
log_two = record {
  handle = at_path;
  entries = two;
  offsets = starts 0 two;
  end = length (encode_all two);
  snap_index = 0;
  snap_term = 0;
  file = encode_all two;
  snapshot_file = none;
  io = [];
}

abbrev entry_at-Fits : (i t : ℕ) → i < 1000 → t < 1000 → Fits (entry_at i t)
entry_at-Fits i t hi ht = record {
  index_fits = omega (arith, hi);
  term_fits = omega (arith, ht);
  typ_fits = omega arith;
  bytes_fit = omega arith;
}

abbrev log_two-IsSound : IsSound log_two
log_two-IsSound = record {
  on_path = refl;
  on_disk = refl;
  at_offsets = refl;
  at_end = refl;
  contiguous = (refl, (refl, tt));
  fit = (
    entry_at-Fits 1 1 (omega arith) (omega arith),
    (entry_at-Fits 2 1 (omega arith) (omega arith), tt),
  );
  index_fits = omega arith;
  term_fits = omega arith;
  snapshot_agrees = inl (refl, refl, refl);
}

abbrev cfg : Config
cfg = record {
  election_timeout_min = pos 300;
  election_timeout_max = pos 600;
  heartbeat_interval = pos 100;
  tick_interval = pos 20;
}

-- Node 1 of three.
abbrev node : State → ℕ → Raft
node state term = record {
  id = 1;
  peers = 2 ∷ 3 ∷ [];
  cfg = cfg;
  log = log_two;
  state = state;
  current_term = term;
  voted_for = 0;
  commit_index = 0;
  last_applied = 0;
  leader_id = 0;
  next_index = [];
  match_index = (2, 2) ∷ (3, 1) ∷ [];
  election_deadline = pos 0;
  closed = false;
  has_apply = true;
  snapshot_fn = none;
  has_restore = false;
  snap_threshold = 0;
  has_on_state = false;
  machine = [];
  notices = [];
  hard_state_file = none;
  hard_state_io = [];
}

abbrev now : Tick
now = record { now = pos 1000; drawn = pos 7 }

abbrev ask : ℕ → ℕ → RequestVoteArgs
ask who term = record { term = term; candidate_id = who; last_log_index = 2; last_log_term = 1 }

-- An election is won with one vote of two.
abbrev election : List Input
election =
    election_timeout now
    ∷ vote_reply now 2 (record { term = 2; vote_granted = true }) 1
    ∷ vote_request now (ask 3 2)
    ∷ apply_turn
    ∷ []

leader-HasRoom : HasRoom (node leader 1)
unfolding last_index
leader-HasRoom = (omega arith, omega arith)

maybe_advance_commit-IsCommittable_example :
    ((maybe_advance_commit (node leader 1)).commit_index ≡ 0)
    ⊎ (0 < (maybe_advance_commit (node leader 1)).commit_index)
      × ((maybe_advance_commit (node leader 1)).commit_index ≤ last_index log_two)
      × IsCommittable (maybe_advance_commit (node leader 1)).commit_index (node leader 1)
maybe_advance_commit-IsCommittable_example =
    maybe_advance_commit-IsCommittable (node leader 1) leader-HasRoom

two-IsCommittable : IsCommittable 2 (node leader 1)
unfolding majority last_index term_at
two-IsCommittable = (refl, omega arith)

last_two : last_index log_two ≡ 2
unfolding last_index
last_two = refl

maybe_advance_commit_greatest_example : 2 ≤ (maybe_advance_commit (node leader 1)).commit_index
maybe_advance_commit_greatest_example =
    maybe_advance_commit_greatest 2 (node leader 1) leader-HasRoom (omega (arith, last_two))
      two-IsCommittable

election-HasIndexes : HasIndexes election (node follower 1)
unfolding perform apply_next last_index term_at last_log start_election receive_vote append
    handle_request_vote
election-HasIndexes = (
  (omega arith, omega arith),
  ((omega arith, omega arith), ((omega arith, omega arith), ((omega arith, omega arith), tt))),
)

perform_all-Advances_example :
    (0 ≤ (perform_all election (node follower 1)).commit_index)
    × ((perform_all election (node follower 1)).last_applied
        ≤ (perform_all election (node follower 1)).commit_index)
perform_all-Advances_example =
    perform_all-Advances election (node follower 1) election-HasIndexes (omega arith)

-- The second entry conflicts, so it and what follows it give way.
abbrev append_args : AppendEntriesArgs
append_args = record {
  term = 3;
  leader_id = 2;
  prev_log_index = 1;
  prev_log_term = 1;
  entries = entry_at 2 3 ∷ entry_at 3 3 ∷ [];
  leader_commit = 2;
}

append_accepted : (handle_append_entries now append_args (node follower 1)).1.success ≡ true
unfolding handle_append_entries last_index term_at
append_accepted = refl

handle_append_entries-Merges_example :
    (0 ≤ 1)
    × (1 ≤ last_index log_two)
    × Holds
        (handle_append_entries now append_args (node follower 1)).0.log
        0
        (take (1 - 0) two ++ merged (drop (1 - 0) two) append_args.entries)
handle_append_entries-Merges_example =
    handle_append_entries-Merges now append_args (node follower 1) log_two-IsSound refl
      (refl, (refl, tt))
      (
        entry_at-Fits 2 3 (omega arith) (omega arith),
        (entry_at-Fits 3 3 (omega arith) (omega arith), tt),
      )
      (omega arith) append_accepted

voted : (handle_request_vote now (ask 3 2) (node follower 1)).1.vote_granted ≡ true
unfolding handle_request_vote last_index term_at last_log
voted = refl

-- The candidate asks again, its first request or the reply to it having been lost.
abbrev again : List Input
again = apply_turn ∷ []

again-HasTerms : HasTerms again (handle_request_vote now (ask 3 2) (node follower 1)).0
unfolding handle_request_vote last_index term_at last_log
again-HasTerms = (omega arith, tt)

voted_again :
    (handle_request_vote now
      (ask 3 2)
      (perform_all again (handle_request_vote now (ask 3 2) (node follower 1)).0)).1.vote_granted
    ≡ true
unfolding handle_request_vote perform_all perform apply_next last_index term_at last_log
voted_again = refl

same_term :
    (handle_request_vote now
      (ask 3 2)
      (perform_all again (handle_request_vote now (ask 3 2) (node follower 1)).0)).1.term
    ≡ (handle_request_vote now (ask 3 2) (node follower 1)).1.term
unfolding handle_request_vote perform_all perform apply_next last_index term_at last_log
same_term = refl

one_vote_per_term_example : (ask 3 2).candidate_id ≡ (ask 3 2).candidate_id
one_vote_per_term_example =
    one_vote_per_term now now (ask 3 2) (ask 3 2) again (node follower 1) (ground arith) voted
      again-HasTerms voted_again same_term
