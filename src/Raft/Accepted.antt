-- ===== src/Raft/Accepted.antt =====
-- internal/raft/raft.go, `HandleAppendEntries`: the log after a message that is accepted.
use uptime_monitor.Prelude.{
  ℕ, suc, ◌+◌, ◌-◌, ◌≤◌, ◌<◌, ◌≡◌, true, ◌++◌, length, take, drop, All, arith,
}
use uptime_monitor.Raftlog.Entry.{Fits}
use uptime_monitor.Raftlog.Log.{u64, last_index}
use uptime_monitor.Raftlog.Contiguous.{Contiguous}
use uptime_monitor.Raftlog.Sound.{IsSound, last_index-IsSound}
use uptime_monitor.Raft.Node.{Raft, Tick, AppendEntriesArgs}
use uptime_monitor.Raft.Roles.{become_follower, notify_state, reset_election_timer}
use uptime_monitor.Raft.Handlers.{
  accept_leader, check_and_append, merge_entries, handle_append_entries,
}
use uptime_monitor.Raft.Merge.{AllDone, Holds, merged, merge_entries-Holds}

accept_leader-log :
    (t : Tick) (term leader_id : ℕ) (r : Raft) → (accept_leader t term leader_id r).log ≡ r.log
unfolding become_follower notify_state reset_election_timer
accept_leader-log t term leader_id r = ground arith

check_accepted :
    (args : AppendEntriesArgs) (r : Raft)
    → (check_and_append args r).1.success ≡ true
    → (r.log.snap_index ≤ args.prev_log_index)
      × (args.prev_log_index ≤ last_index r.log)
      × ((check_and_append args r).0.log
          ≡ merge_entries (u64 (args.prev_log_index + 1)) args.entries r.log)
unfolding check_and_append
check_accepted args r h = ground arith

handle_accepted :
    (t : Tick) (args : AppendEntriesArgs) (r : Raft)
    → (handle_append_entries t args r).1.success ≡ true
    → (r.log.snap_index ≤ args.prev_log_index)
      × (args.prev_log_index ≤ last_index r.log)
      × ((handle_append_entries t args r).0.log
          ≡ merge_entries (u64 (args.prev_log_index + 1)) args.entries r.log)
unfolding handle_append_entries
handle_accepted t args r h = ground (
  arith,
  accept_leader-log t args.term args.leader_id r,
  check_accepted args (accept_leader t args.term args.leader_id r),
)

-- A message with consecutive entries from after `prev_log_index` on, in range, that a node
-- accepts, its log being sound and its writes going well: `prev_log_index` is not below the node's
-- snapshot nor past its last entry, the log stays sound, and its entries are those up to
-- `prev_log_index` followed by the merge of the rest with the message's: nothing is dropped before
-- a conflict of terms, nor at the end if there is none.
pub handle_append_entries-Merges :
    (t : Tick) (args : AppendEntriesArgs) (r : Raft)
    → IsSound r.log
    → AllDone r.log
    → Contiguous (suc args.prev_log_index) args.entries
    → All Fits args.entries
    → suc (args.prev_log_index + length args.entries) < 18446744073709551616
    → (handle_append_entries t args r).1.success ≡ true
    → (r.log.snap_index ≤ args.prev_log_index)
      × (args.prev_log_index ≤ last_index r.log)
      × Holds (handle_append_entries t args r).0.log r.log.snap_index (
          take (args.prev_log_index - r.log.snap_index) r.log.entries
          ++ merged (drop (args.prev_log_index - r.log.snap_index) r.log.entries) args.entries)
handle_append_entries-Merges t args r s d c f room good =
    let (lo, hi, log) = handle_accepted t args r good in
    let k = args.prev_log_index - r.log.snap_index in
    let at : r.log.snap_index + k ≡ args.prev_log_index = omega (arith, lo) in
    let idx : u64 (args.prev_log_index + 1) ≡ suc (r.log.snap_index + k) =
      omega (arith, lo, room) in
    (
      lo,
      hi,
      rw (log, idx)
          (merge_entries-Holds k args.entries r.log s d
            (omega (arith, hi, lo, last_index-IsSound r.log s)) (rw at c) f (rw at room)),
    )
