-- ===== src/Raft/Replication.antt =====
-- internal/raft/raft.go: the leader's side of replication, and the commit rule.
use uptime_monitor.Prelude.{
  ℕ, zero, suc, ◌+◌, ◌-◌, not, ◌||◌, Option, none, some, List, [], ◌∷◌, ltb, leb, ◌==◌,
  if◌then◌else◌, lookup, insert, nat_eq,
}
use uptime_monitor.Raftlog.Log.{Log, u64, last_index, term_at, from, snapshot_data}
use uptime_monitor.Raft.Node.{
  NodeId, Raft, Tick, AppendEntriesArgs, AppendEntriesReply, InstallSnapshotArgs,
  InstallSnapshotReply,
}
use uptime_monitor.Raft.Roles.{is_leader, reset_election_timer, become_follower, majority}

unfoldable pub min_u : ℕ → ℕ → ℕ
min_u a b = if ltb a b then a else b

unfoldable pub max_u : ℕ → ℕ → ℕ
max_u a b = if ltb b a then a else b

-- A missing key of a Go map reads as 0.
abbrev pub value_or_zero : Option ℕ → ℕ
value_or_zero none = 0
value_or_zero (some n) = n

abbrev pub index_of : NodeId → List (NodeId × ℕ) → ℕ
index_of p m = value_or_zero (lookup p m)

-- The message of `replicateTo`: none, a snapshot for a follower that needs compacted entries, or the
-- entries from its next index.
pub data Outbound : Type 0 where
  nothing : Outbound
  send_snapshot : InstallSnapshotArgs → Outbound
  send_entries : AppendEntriesArgs → Outbound

unfoldable pub replicate_to : NodeId → Raft → Outbound
replicate_to peer r =
    if not (is_leader r.state) || r.closed
    then nothing
    else let ni = if ltb (index_of peer r.next_index) 1 then 1 else index_of peer r.next_index in
      if leb ni r.log.snap_index
      then send_snapshot (record {
        term = r.current_term;
        leader_id = r.id;
        last_included_index = r.log.snap_index;
        last_included_term = r.log.snap_term;
        bytes = snapshot_data r.log;
      })
      else send_entries (record {
        term = r.current_term;
        leader_id = r.id;
        prev_log_index = ni - 1;
        prev_log_term = (term_at r.log (ni - 1)).0;
        entries = from r.log ni;
        leader_commit = r.commit_index;
      })

-- The nodes that have entry n, the leader among them.
abbrev pub acks : ℕ → List NodeId → List (NodeId × ℕ) → ℕ
acks n [] m = 0
acks n (p ∷ ps) m = (if leb n (index_of p m) then 1 else 0) + acks n ps m

-- One turn of the loop of `maybeAdvanceCommitLocked`.
unfoldable pub consider : ℕ → Raft → Raft
unfolding majority
consider n r =
    let (term_n, ok) = term_at r.log n in
    if not ok || not (term_n == r.current_term)
    then r
    else if leb (majority r) (1 + acks n r.peers r.match_index)
    then record r { commit_index = n }
    else r

-- The loop of `maybeAdvanceCommitLocked` on fuel, with its uint64 counter and the last index.
unfoldable pub consider_from : ℕ → ℕ → ℕ → Raft → Raft
consider_from zero n last r = r
consider_from (suc fuel) n last r =
    let rest = consider_from fuel (u64 (n + 1)) last (consider n r) in
    if leb n last then rest else r

-- The loop starts behind the commit index. The fuel is enough unless the last index is that of
-- the greatest uint64, where the loop never ends.
unfoldable pub maybe_advance_commit : Raft → Raft
unfolding consider_from consider
maybe_advance_commit r =
    let last = last_index r.log in consider_from (last + 1) (u64 (r.commit_index + 1)) last r

-- The loop of `lastIndexWithTermLocked`, downwards.
unfoldable pub last_with_term : ℕ → ℕ → Log → ℕ
last_with_term zero term l = 0
last_with_term (suc i) term l =
    let rest = last_with_term i term l in
    let (t, ok) = term_at l (suc i) in
    if not ok then 0 else if t == term then suc i else if ltb t term then 0 else rest

unfoldable pub last_index_with_term : ℕ → Log → ℕ
unfolding last_with_term
last_index_with_term term l = last_with_term (last_index l) term l

-- The loop of `firstIndexWithTermLocked`, upwards.
unfoldable pub first_with_term : ℕ → ℕ → ℕ → Log → ℕ
first_with_term zero i term l = 1
first_with_term (suc rounds) i term l =
    let rest = first_with_term rounds (i + 1) term l in if (term_at l i).0 == term then i else rest

unfoldable pub first_index_with_term : ℕ → Log → ℕ
unfolding first_with_term
first_index_with_term term l = first_with_term (last_index l) 1 term l

-- The follower is known to have everything up to `upto`.
abbrev pub record_match : NodeId → ℕ → Raft → Raft
record_match peer upto r =
    let old = index_of peer r.match_index in
    let m = if ltb old upto then upto else old in
    record r {
      match_index = if ltb old upto then insert peer upto r.match_index else r.match_index;
      next_index = insert peer (u64 (m + 1)) r.next_index;
    }

-- Where the leader goes on after a failed consistency check.
abbrev pub back_up : AppendEntriesReply → Log → ℕ
back_up reply l =
    let last = last_index_with_term reply.conflict_term l in
    if reply.conflict_term == 0
    then max_u 1 reply.conflict_index
    else if ltb 0 last
    then u64 (last + 1)
    else max_u 1 reply.conflict_index

-- `replicateTo` from the reply on, for a message of `count` entries after `prev_index` in `term`.
unfoldable pub receive_append : Tick → NodeId → ℕ → ℕ → ℕ → AppendEntriesReply → Raft → Raft
unfolding become_follower reset_election_timer max_u
receive_append t peer term prev_index count reply r =
    if not (r.current_term == term) || not (is_leader r.state)
    then r
    else if ltb r.current_term reply.term
    then reset_election_timer t (become_follower reply.term r)
    else if reply.success
    then maybe_advance_commit (record_match peer (u64 (prev_index + count)) r)
    else record r { next_index = insert peer (back_up reply r.log) r.next_index }

-- `sendSnapshotLocked` from the reply on, for a snapshot up to `si`.
unfoldable pub receive_snapshot : Tick → NodeId → ℕ → ℕ → InstallSnapshotReply → Raft → Raft
unfolding become_follower reset_election_timer
receive_snapshot t peer term si reply r =
    if not (r.current_term == term) || not (is_leader r.state)
    then r
    else if ltb r.current_term reply.term
    then reset_election_timer t (become_follower reply.term r)
    else maybe_advance_commit (record_match peer si r)
