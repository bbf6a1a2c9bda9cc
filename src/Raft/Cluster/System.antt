-- ===== src/Raft/Cluster/System.antt =====
-- internal/raft/raft.go: the steps of a cluster. Any node can meet any input at any time; the network
-- loses, delays, reorders and repeats messages, and forges none of the replies that grant a vote.
use uptime_monitor.Prelude.{
  ℕ, suc, ◌<◌, ◌≡◌, ◌≢◌, ◌⊎◌, true, false, ◌&&◌, Option, none, some, List, [], ◌∷◌, ◌==◌,
  if◌then◌else◌, length,
}
use uptime_monitor.Raftlog.Error.{ok}
use uptime_monitor.Raftlog.Io.{Outcome}
use uptime_monitor.Raftlog.HardState.{load_hard_state}
use uptime_monitor.Raftlog.Recover.{Disk}
use uptime_monitor.Raft.Node.{NodeId, Raft, Tick, Config, RequestVoteArgs, RequestVoteReply}
use uptime_monitor.Raft.Roles.{start_election, receive_vote}
use uptime_monitor.Raft.Handlers.{handle_request_vote}
use uptime_monitor.Raft.Life.{new}
use uptime_monitor.Raft.Votes.{Input, election_timeout, vote_reply, vote_request, perform}
use uptime_monitor.Raft.Cluster.Quorum.{mem}

-- The nodes, by their ids, and the history of the votes: whom a node has voted for in a term, 0 for
-- no one, and whose votes a candidate has counted in a term.
pub record Cluster : Type 0 where
  pub nodes : ℕ → Raft
  pub ballot : ℕ → ℕ → NodeId
  pub counted : ℕ → ℕ → List NodeId

abbrev pub set_at {ℓ} : {A : Type ℓ} → (ℕ → A) → ℕ → A → ℕ → A
set_at f i a j = if i == j then a else f j

abbrev pub set_in {ℓ} : {A : Type ℓ} → (ℕ → ℕ → A) → ℕ → ℕ → A → ℕ → ℕ → A
set_in f i t a j u = if i == j && t == u then a else f j u

-- An election timeout of node i; if it starts an election, it votes for itself, which counts.
abbrev pub started : ℕ → Cluster → Raft × Option RequestVoteArgs → Cluster
started i s (r, none) = record s { nodes = set_at s.nodes i r }
started i s (r, some args) = record {
  nodes = set_at s.nodes i r;
  ballot = set_in s.ballot i args.term args.candidate_id;
  counted = set_in s.counted i args.term (i ∷ []);
}

-- A request for a vote that node i answers.
abbrev pub answered : ℕ → NodeId → Cluster → Raft × RequestVoteReply → Cluster
answered i from s (r, reply) = record s {
  nodes = set_at s.nodes i r;
  ballot = if reply.vote_granted then set_in s.ballot i reply.term from else s.ballot;
}

-- A reply of node v to node i about its election in a term, with the count that comes out.
abbrev pub counts : ℕ → NodeId → ℕ → Cluster → Raft × ℕ → Cluster
counts i v term s (r, count) = record s {
  nodes = set_at s.nodes i r;
  counted =
      if count == length (s.counted i term)
      then s.counted
      else set_in s.counted i term (v ∷ s.counted i term);
}

-- The inputs in which no vote is cast or counted.
abbrev pub IsOther : Input → Type 0
IsOther (election_timeout t) = ⊥
IsOther (vote_reply t term reply count) = ⊥
IsOther (vote_request t args) = ⊥
IsOther _ = Unit

-- The hard state file holds the node's term and vote.
abbrev pub IsSaved : Raft → Type 0
IsSaved r =
    load_hard_state r.hard_state_file
    ≡ ok (record { term = r.current_term; voted_for = r.voted_for })

pub data Step (ms : List NodeId) : Cluster → Cluster → Type 0 where
  time_out :
      (i : ℕ) (t : Tick) (s : Cluster)
      → mem i ms ≡ true
      → suc (s.nodes i).current_term < 18446744073709551616
      → Step ms s (started i s (start_election t (s.nodes i)))
  request :
      (i : ℕ) (t : Tick) (args : RequestVoteArgs) (s : Cluster)
      → mem i ms ≡ true
      → args.candidate_id ≢ 0
      → Step ms s (answered i args.candidate_id s (handle_request_vote t args (s.nodes i)))
  -- `startElection` asks every peer once, so a vote is not counted twice.
  deliver :
      (i v : ℕ) (t : Tick) (term : ℕ) (r : RequestVoteReply) (s : Cluster)
      → mem i ms ≡ true
      → mem v ms ≡ true
      → (r.vote_granted ≡ false) ⊎ (s.ballot v term ≡ i)
      → mem v (s.counted i term) ≡ false
      → Step ms s
          (counts i v term s (receive_vote t term r (s.nodes i) (length (s.counted i term))))
  other :
      (i : ℕ) (input : Input) (s : Cluster)
      → mem i ms ≡ true
      → IsOther input
      → Step ms s (record s { nodes = set_at s.nodes i (perform input (s.nodes i)) })
  -- A crash, and a restart on whatever log the disk has.
  restart :
      (i : ℕ) (cfg : Config) (d : Disk) (log_io io : List Outcome) (r : Raft) (s : Cluster)
      → mem i ms ≡ true
      → IsSaved (s.nodes i)
      → new (s.nodes i).id (s.nodes i).peers cfg d (s.nodes i).hard_state_file log_io io ≡ ok r
      → Step ms s (record s { nodes = set_at s.nodes i r })

pub data Reach (ms : List NodeId) (s : Cluster) : Cluster → Type 0 where
  here : Reach ms s s
  next : {t u : Cluster} → Reach ms s t → Step ms t u → Reach ms s u
