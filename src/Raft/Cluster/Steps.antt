-- ===== src/Raft/Cluster/Steps.antt =====
-- internal/raft/raft.go: what every step of a cluster keeps.
use uptime_monitor.Prelude.{
  ℕ, suc, ◌+◌, ◌≤◌, ◌<◌, ◌≡◌, ◌⊎◌, inl, inr, refl, sym, subst, ◌∙◌, true, false, ◌||◌, Bool-cases,
  Option, none, some, List, [], ◌∷◌, ◌==◌, ==→eq, ==_refl, length, arith,
}
use uptime_monitor.Raftlog.Bytes.{Bytes}
use uptime_monitor.Raftlog.Error.{ok, Result-cases}
use uptime_monitor.Raftlog.Io.{Outcome}
use uptime_monitor.Raftlog.Recover.{Disk, open_log}
use uptime_monitor.Raftlog.HardState.{HardState, load_hard_state}
use uptime_monitor.Raft.Node.{NodeId, Raft, Tick, Config, RequestVoteArgs, RequestVoteReply}
use uptime_monitor.Raft.Roles.{is_leader, majority, start_election, receive_vote}
use uptime_monitor.Raft.Handlers.{handle_request_vote}
use uptime_monitor.Raft.Life.{new, propose, apply_next, stop}
use uptime_monitor.Raft.Votes.{
  VoteKept, handle_request_vote-VoteKept, Input, election_timeout, vote_reply, append_reply,
  snapshot_reply, vote_request, append_request, snapshot_request, proposal, apply_turn, stopped,
  perform, start_election-VoteKept, receive_vote-VoteKept, handle_append_entries-VoteKept,
  handle_install_snapshot-VoteKept, receive_append-VoteKept, receive_snapshot-VoteKept,
  propose-SameVote, apply_next-SameVote, stop-SameVote, SameVote-after,
}
use uptime_monitor.Raft.Cluster.Quorum.{mem}
use uptime_monitor.Raft.Cluster.Local.{
  Stays, handle_request_vote-Stays, start_election-Stays, receive_vote-Elects,
  handle_append_entries-Stays, handle_install_snapshot-Stays, receive_append-Stays,
  receive_snapshot-Stays, propose-Stays, apply_next-Stays, stop-Stays,
}
use uptime_monitor.Raft.Cluster.System.{
  Cluster, set_at, set_in, started, counts, IsOther, Step, time_out, request, deliver, other,
  restart, Reach, here, next,
}
use uptime_monitor.Raft.Cluster.Invariant.{
  Backed, Inv, Extends, Backed-Extends, nonzero, moved-Inv, cast-Stands, cast-Extends, quiet-Inv,
  granted-Inv, majority-peers, Stands-VoteKept,
}

other-Stays : (input : Input) (r : Raft) → IsOther input → Stays r (perform input r)
unfolding perform
other-Stays (election_timeout t) r o = absurd o
other-Stays (vote_reply t term reply count) r o = absurd o
other-Stays (vote_request t args) r o = absurd o
other-Stays (append_reply t peer term prev count reply) r o =
    receive_append-Stays t peer term prev count reply r
other-Stays (snapshot_reply t peer term si reply) r o =
    receive_snapshot-Stays t peer term si reply r
other-Stays (append_request t args) r o = handle_append_entries-Stays t args r
other-Stays (snapshot_request t args) r o = handle_install_snapshot-Stays t args r
other-Stays (proposal bytes) r o = propose-Stays bytes r
other-Stays apply_turn r o = apply_next-Stays r
other-Stays stopped r o = stop-Stays r

other-VoteKept : (input : Input) (r : Raft) → IsOther input → VoteKept r (perform input r)
unfolding perform
other-VoteKept (election_timeout t) r o = absurd o
other-VoteKept (vote_reply t term reply count) r o = absurd o
other-VoteKept (vote_request t args) r o = absurd o
other-VoteKept (append_reply t peer term prev count reply) r o =
    receive_append-VoteKept t peer term prev count reply r
other-VoteKept (snapshot_reply t peer term si reply) r o =
    receive_snapshot-VoteKept t peer term si reply r
other-VoteKept (append_request t args) r o = handle_append_entries-VoteKept t args r
other-VoteKept (snapshot_request t args) r o = handle_install_snapshot-VoteKept t args r
other-VoteKept (proposal bytes) r o =
    SameVote-after r r (propose bytes r).0 (inr (refl, inr refl)) (propose-SameVote bytes r)
other-VoteKept apply_turn r o =
    SameVote-after r r (apply_next r) (inr (refl, inr refl)) (apply_next-SameVote r)
other-VoteKept stopped r o = SameVote-after r r (stop r) (inr (refl, inr refl)) (stop-SameVote r)

-- An election that starts is for the next term, with the node's own vote in it.
start_election-cases :
    (t : Tick) (r : Raft)
    → suc r.current_term < 18446744073709551616
    → (start_election t r ≡ (r, none))
      ⊎ ((args : RequestVoteArgs) × ((start_election t r).1 ≡ some args)
          × (args.term ≡ suc r.current_term)
          × (args.candidate_id ≡ r.id)
          × ((start_election t r).0.current_term ≡ suc r.current_term)
          × ((start_election t r).0.voted_for ≡ r.id)
          × (is_leader (start_election t r).0.state ≡ false))
unfolding start_election
start_election-cases t r room = elim (Bool-cases (is_leader r.state || r.closed)) [
  | inl out ↦ inl (rw out refl)
  | inr in_time ↦
      rw in_time (
        inr (_, refl, ground (arith, room), refl, ground (arith, room), ground arith, ground arith))
]

-- A restart that reads the hard state gives a follower with the same term and vote.
new-hard_state :
    (id : NodeId) (peers : List NodeId) (cfg : Config) (d : Disk) (file : Option Bytes)
    (log_io io : List Outcome) (hs : HardState) (r : Raft)
    → load_hard_state file ≡ ok hs
    → new id peers cfg d file log_io io ≡ ok r
    → (r.id ≡ id)
      × (r.peers ≡ peers)
      × (r.current_term ≡ hs.term)
      × (r.voted_for ≡ hs.voted_for)
      × (is_leader r.state ≡ false)
unfolding new
new-hard_state id peers cfg d file log_io io hs r loaded made =
    elim (Result-cases (open_log d log_io)) [
      | inl (l, opened) ↦ ground (arith, made, opened, loaded)
      | inr (e, failed) ↦ ground (arith, made, failed)
    ]

set_in_here {ℓ} : {A : Type ℓ} (f : ℕ → ℕ → A) (i t : ℕ) (a : A) → set_in f i t a i t ≡ a
set_in_here f i t a = rw (==_refl i, ==_refl t) refl

set_in-cases {ℓ κ} :
    {A : Type ℓ} (P : ℕ → A → Type κ) (f : ℕ → ℕ → A) (i t : ℕ) (a : A) (u : ℕ)
    → P t a
    → P u (f i u)
    → P u (set_in f i t a i u)
set_in-cases P f i t a u at_once before = elim (Bool-cases (t == u)) [
  | inl e ↦ rw (==_refl i, e) (subst (λ x. P x a) (==→eq t u e) at_once)
  | inr e ↦ rw (==_refl i, e) before
]

not_same : (n : ℕ) → (n + 1 == n) ≡ false
not_same n = ground arith

module _ (ms : List NodeId) (s : Cluster) (inv : Inv ms s) (i : ℕ) (in_ms : mem i ms ≡ true) where
  -- A node that starts an election has voted in the new term for no one before.
  started-Inv :
      (t : Tick) (args : RequestVoteArgs)
      → suc (s.nodes i).current_term < 18446744073709551616
      → args.term ≡ suc (s.nodes i).current_term
      → args.candidate_id ≡ (s.nodes i).id
      → (start_election t (s.nodes i)).0.current_term ≡ suc (s.nodes i).current_term
      → (start_election t (s.nodes i)).0.voted_for ≡ (s.nodes i).id
      → is_leader (start_election t (s.nodes i)).0.state ≡ false
      → Inv ms (started i s ((start_election t (s.nodes i)).0, some args))
  started-Inv t args room next_term self now for_self follows =
      let r = (start_election t (s.nodes i)).0 in
      let b = set_in s.ballot i args.term args.candidate_id in
      let stays = start_election-Stays t (s.nodes i) in
      let kept = start_election-VoteKept t (s.nodes i) room in
      let more : Extends s.ballot b =
        cast-Extends (s.nodes i) s.ballot i args.term args.candidate_id
          (inv.standing i args.term in_ms) (inl (omega (arith, next_term))) in
      moved-Inv ms s inv i r b (set_in s.counted i args.term (i ∷ [])) in_ms stays.0 stays.1
        (λ u.
          cast-Stands (s.nodes i) r s.ballot i args.term args.candidate_id u kept
            (inv.standing i u in_ms) (now ∙ sym next_term) (for_self ∙ sym self))
        more (λ v u ne. ground (arith, ne)) (λ j u ne. ground (arith, ne))
        (λ u.
          set_in-cases (λ x vs. Backed ms b i x vs) s.counted i args.term (i ∷ []) u
            (
              in_ms,
              refl,
              set_in_here s.ballot i args.term args.candidate_id ∙ self ∙ (inv.placed i in_ms).0,
              tt,
            )
            (Backed-Extends ms s.ballot b i u (s.counted i u) (nonzero ms i inv.no_zero in_ms) more
              (inv.backed i u in_ms)))
        (inl follows)

  time_out-Inv :
      (t : Tick)
      → suc (s.nodes i).current_term < 18446744073709551616
      → Inv ms (started i s (start_election t (s.nodes i)))
  time_out-Inv t room = elim (start_election-cases t (s.nodes i) room) [
    | inl out ↦
        rw out (quiet-Inv ms s inv i in_ms (s.nodes i) (inr (refl, inr refl)) (ground arith))
    | inr (args, some_args, next_term, self, now, for_self, follows) ↦
        subst (λ x. Inv ms (started i s ((start_election t (s.nodes i)).0, x))) (sym some_args)
          (started-Inv t args room next_term self now for_self follows)
  ]

  counted-Inv :
      (v : NodeId) (r : Raft) (term : ℕ)
      → VoteKept (s.nodes i) r
      → r.id ≡ (s.nodes i).id
      → r.peers ≡ (s.nodes i).peers
      → r.current_term ≡ term
      → (is_leader r.state ≡ false) ⊎ (majority (s.nodes i) ≤ length (s.counted i term) + 1)
      → mem v ms ≡ true
      → mem v (s.counted i term) ≡ false
      → s.ballot v term ≡ i
      → Inv ms (record s {
        nodes = set_at s.nodes i r;
        counted = set_in s.counted i term (v ∷ s.counted i term);
      })
  counted-Inv v r term kept same_id same_peers now wins v_in fresh for_i =
      moved-Inv ms s inv i r s.ballot (set_in s.counted i term (v ∷ s.counted i term)) in_ms same_id
        same_peers
        (λ u. Stands-VoteKept (s.nodes i) r u (s.ballot i u) kept (inv.standing i u in_ms))
        (λ w u. inr refl) (λ w u ne. refl) (λ j u ne. ground (arith, ne))
        (λ u.
          set_in-cases (λ x vs. Backed ms s.ballot i x vs) s.counted i term (v ∷ s.counted i term) u
            (v_in, fresh, for_i, inv.backed i term in_ms) (inv.backed i u in_ms))
        (rw (now, set_in_here s.counted i term (v ∷ s.counted i term))
          (ground (arith, wins, majority-peers (s.nodes i) r same_peers)))

  delivered-Inv :
      (v : NodeId) (t : Tick) (term : ℕ) (r : RequestVoteReply)
      → mem v ms ≡ true
      → (r.vote_granted ≡ false) ⊎ (s.ballot v term ≡ i)
      → mem v (s.counted i term) ≡ false
      → Inv ms (counts i v term s (receive_vote t term r (s.nodes i) (length (s.counted i term))))
  delivered-Inv v t term r v_in given fresh =
      let n = length (s.counted i term) in
      let r' = (receive_vote t term r (s.nodes i) n).0 in
      let kept = receive_vote-VoteKept t term r n (s.nodes i) in
      elim (receive_vote-Elects t term r n (s.nodes i)) [
        | inl (same_id, same_peers, count, leads) ↦
            rw (count, ==_refl n) (quiet-Inv ms s inv i in_ms r' kept (same_id, same_peers, leads))
        | inr (same_id, same_peers, count, granted, asked, now, wins) ↦
            rw (count, not_same n)
              (counted-Inv v r' term kept same_id same_peers now wins v_in fresh
                (ground (arith, given, granted)))
      ]

Step-Inv : (ms : List NodeId) {s u : Cluster} → Step ms s u → Inv ms s → Inv ms u
Step-Inv ms (time_out i t s i_in room) inv = time_out-Inv ms s inv i i_in t room
Step-Inv ms (request i t args s i_in real) inv =
    elim (Bool-cases (handle_request_vote t args (s.nodes i)).1.vote_granted) [
      | inl granted ↦ rw granted (granted-Inv ms s inv i i_in t args granted)
      | inr refused ↦ rw refused (
          quiet-Inv ms s inv i i_in (handle_request_vote t args (s.nodes i)).0
            (handle_request_vote-VoteKept t args (s.nodes i))
            (handle_request_vote-Stays t args (s.nodes i)))
    ]
Step-Inv ms (deliver i v t term r s i_in v_in given fresh) inv =
    delivered-Inv ms s inv i i_in v t term r v_in given fresh
Step-Inv ms (other i input s i_in o) inv =
    quiet-Inv ms s inv i i_in (perform input (s.nodes i)) (other-VoteKept input (s.nodes i) o)
      (other-Stays input (s.nodes i) o)
Step-Inv ms (restart i cfg d log_io io r s i_in saved made) inv =
    let (same_id, same_peers, same_term, same_vote, follows) =
      new-hard_state (s.nodes i).id (s.nodes i).peers cfg d (s.nodes i).hard_state_file log_io io
        (record { term = (s.nodes i).current_term; voted_for = (s.nodes i).voted_for }) r saved
        made in
    quiet-Inv ms s inv i i_in r (inr (same_term, inr same_vote)) (same_id, same_peers, inl follows)

pub Reach-Inv : (ms : List NodeId) {s u : Cluster} → Inv ms s → Reach ms s u → Inv ms u
Reach-Inv ms inv here = inv
Reach-Inv ms inv (next r st) = Step-Inv ms st (Reach-Inv ms inv r)
