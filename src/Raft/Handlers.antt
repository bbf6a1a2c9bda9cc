-- ===== src/Raft/Handlers.antt =====
-- internal/raft/raft.go: the handlers of the three messages.
use uptime_monitor.Prelude.{
  ℕ, ◌+◌, Bool, true, false, not, ◌&&◌, ◌||◌, Option, none, some, List, [], ◌∷◌, ◌++◌, ltb, leb,
  ◌==◌, if◌then◌else◌, length,
}
use uptime_monitor.Raftlog.Bytes.{Bytes}
use uptime_monitor.Raftlog.Error.{Result, ok, err}
use uptime_monitor.Raftlog.Entry.{Entry}
use uptime_monitor.Raftlog.Log.{Log, u64, last_index, term_at, append_entry}
use uptime_monitor.Raftlog.Compact.{truncate_suffix, install_snapshot}
use uptime_monitor.Raft.Node.{
  follower, Raft, Tick, RequestVoteArgs, RequestVoteReply, AppendEntriesArgs, AppendEntriesReply,
  InstallSnapshotArgs, InstallSnapshotReply, restored,
}
use uptime_monitor.Raft.Roles.{
  is_follower, reset_election_timer, persist, notify_state, become_follower, last_log,
}
use uptime_monitor.Raft.Replication.{min_u, first_index_with_term}

-- The election restriction: the candidate's log is not behind.
unfoldable pub up_to_date : RequestVoteArgs → Raft → Bool
up_to_date args r =
    let (last_idx, last_term) = last_log r in
    ltb last_term args.last_log_term
    || (args.last_log_term == last_term && leb last_idx args.last_log_index)

-- `HandleRequestVote` past its early returns and the step to a newer term.
grant_vote : Tick → RequestVoteArgs → Raft → Raft × RequestVoteReply
unfolding up_to_date persist reset_election_timer
grant_vote t args r =
    let grant = (r.voted_for == 0 || r.voted_for == args.candidate_id) && up_to_date args r in
    (
      (if grant
          then reset_election_timer t (persist (record r { voted_for = args.candidate_id }))
          else r),
      record { term = r.current_term; vote_granted = grant },
    )

unfoldable pub handle_request_vote : Tick → RequestVoteArgs → Raft → Raft × RequestVoteReply
unfolding grant_vote become_follower
handle_request_vote t args r =
    if r.closed || ltb args.term r.current_term
    then (r, record { term = r.current_term; vote_granted = false })
    else grant_vote t args (if ltb r.current_term args.term then become_follower args.term r else r)

-- The loop that appends what follows the first conflict. Errors are printed, and the loop goes on.
unfoldable pub append_all : List Entry → Log → Log
append_all [] l = l
append_all (e ∷ es) l = append_all es (append_entry e l).0

-- The loop over the entries of a message: those that the log has are skipped; at the first conflict
-- the log is cut, and what is left is appended.
unfoldable pub merge_entries : ℕ → List Entry → Log → Log
unfolding append_all
merge_entries idx [] l = l
merge_entries idx (e ∷ es) l =
    if leb idx (last_index l)
    then if (term_at l idx).0 == e.term
      then merge_entries (u64 (idx + 1)) es l
      else append_all (e ∷ es) (truncate_suffix idx l).0
    else append_all (e ∷ es) l

-- A valid leader for this or a newer term is followed.
abbrev pub accept_leader : Tick → ℕ → ℕ → Raft → Raft
accept_leader t term leader_id r =
    let r1 =
      if ltb r.current_term term
      then become_follower term r
      else if not (is_follower r.state)
      then notify_state (record r { state = follower })
      else r in
    reset_election_timer t (record r1 { leader_id = leader_id })

abbrev pub reject : Raft → ℕ → ℕ → AppendEntriesReply
reject r conflict_term conflict_index = record {
  term = r.current_term;
  success = false;
  conflict_term = conflict_term;
  conflict_index = conflict_index;
}

-- The commit index moves to the smaller of the leader's and the last new entry's.
unfoldable pub advance_to : AppendEntriesArgs → Raft → Raft
unfolding min_u
advance_to args r =
    let c = min_u args.leader_commit (u64 (args.prev_log_index + length args.entries)) in
    if ltb r.commit_index args.leader_commit && ltb r.commit_index c
    then record r { commit_index = c }
    else r

-- `HandleAppendEntries` from the snapshot check on.
unfoldable pub check_and_append : AppendEntriesArgs → Raft → Raft × AppendEntriesReply
unfolding advance_to merge_entries
check_and_append args r =
    let last = last_index r.log in
    let our_term = (term_at r.log args.prev_log_index).0 in
    if ltb args.prev_log_index r.log.snap_index
    then (r, reject r 0 (u64 (r.log.snap_index + 1)))
    else if ltb last args.prev_log_index
    then (r, reject r 0 (u64 (last + 1)))
    else if leb 1 args.prev_log_index && not (our_term == args.prev_log_term)
    then (r, reject r our_term (first_index_with_term our_term r.log))
    else (
      advance_to args
          (record r { log = merge_entries (u64 (args.prev_log_index + 1)) args.entries r.log }),
      record { term = r.current_term; success = true; conflict_term = 0; conflict_index = 0 },
    )

unfoldable pub handle_append_entries : Tick → AppendEntriesArgs → Raft → Raft × AppendEntriesReply
unfolding check_and_append become_follower notify_state reset_election_timer
handle_append_entries t args r =
    if r.closed || ltb args.term r.current_term
    then (r, reject r 0 0)
    else check_and_append args (accept_leader t args.term args.leader_id r)

abbrev bytes_or_empty : Option Bytes → Bytes
bytes_or_empty none = []
bytes_or_empty (some b) = b

-- `HandleInstallSnapshot` once the snapshot is in the log.
installed : InstallSnapshotArgs → Raft → Log × Result Unit → Raft
installed args r (l, err _) = record r { log = l }
installed args r (l, ok _) = record r {
  log = l;
  machine = if r.has_restore then r.machine ++ restored args.bytes ∷ [] else r.machine;
  last_applied = args.last_included_index;
  commit_index =
      if ltb r.commit_index args.last_included_index
      then args.last_included_index
      else r.commit_index;
}

install : InstallSnapshotArgs → Raft → Raft
unfolding installed
install args r =
    if leb args.last_included_index r.log.snap_index || leb args.last_included_index r.commit_index
    then r
    else installed args r (
        install_snapshot args.last_included_index args.last_included_term
          (bytes_or_empty args.bytes) r.log)

unfoldable pub handle_install_snapshot :
    Tick → InstallSnapshotArgs → Raft → Raft × InstallSnapshotReply
unfolding install become_follower notify_state reset_election_timer
handle_install_snapshot t args r =
    if r.closed || ltb args.term r.current_term
    then (r, record { term = r.current_term })
    else let r' = install args (accept_leader t args.term args.leader_id r) in
      (r', record { term = r'.current_term })
