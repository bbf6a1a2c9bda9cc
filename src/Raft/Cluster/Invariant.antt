-- ===== src/Raft/Cluster/Invariant.antt =====
-- internal/raft/raft.go: what holds of the votes of a cluster, and how a step of one node keeps it.
use uptime_monitor.Prelude.{
  ℕ, suc, ◌≤◌, ◌<◌, ◌≡◌, ◌≢◌, ◌⊎◌, inl, inr, refl, ap, subst, ◌∙◌, true, false, ◌&&◌, Bool-cases,
  List, [], ◌∷◌, ◌==◌, ==→eq, length, arith,
}
use uptime_monitor.Raft.Node.{NodeId, Raft, Tick, RequestVoteArgs}
use uptime_monitor.Raft.Roles.{is_leader, majority}
use uptime_monitor.Raft.Handlers.{handle_request_vote}
use uptime_monitor.Raft.Cluster.Quorum.{mem}
use uptime_monitor.Raft.Votes.{VoteKept, granted_vote, handle_request_vote-VoteKept}
use uptime_monitor.Raft.Cluster.Local.{Stays, handle_request_vote-Stays}
use uptime_monitor.Raft.Cluster.System.{Cluster, set_at, set_in}

-- A vote that the history has: the node has moved on to a later term, or still holds it.
abbrev pub Stands : Raft → ℕ → NodeId → Type 0
Stands r t c = (c ≡ 0) ⊎ (t < r.current_term) ⊎ (t ≡ r.current_term) × (r.voted_for ≡ c)

-- The votes that candidate i has counted in term t are given to it, by different members.
abbrev pub Backed : List NodeId → (ℕ → ℕ → NodeId) → ℕ → ℕ → List NodeId → Type 0
Backed ms b i t [] = Unit
Backed ms b i t (v ∷ vs) = (mem v ms ≡ true) × (mem v vs ≡ false) × (b v t ≡ i) × Backed ms b i t vs

-- A leader has counted a majority in its term.
abbrev pub Elected : Raft → ℕ → Type 0
Elected r n = (is_leader r.state ≡ false) ⊎ (majority r ≤ n)

pub record Inv (ms : List NodeId) (s : Cluster) : Type 0 where
  pub no_zero : mem 0 ms ≡ false
  pub placed :
      (i : ℕ)
      → mem i ms ≡ true
      → ((s.nodes i).id ≡ i) × (suc (length (s.nodes i).peers) ≡ length ms)
  pub standing : (v t : ℕ) → mem v ms ≡ true → Stands (s.nodes v) t (s.ballot v t)
  pub backed : (i t : ℕ) → mem i ms ≡ true → Backed ms s.ballot i t (s.counted i t)
  pub elected :
      (i : ℕ)
      → mem i ms ≡ true
      → Elected (s.nodes i) (length (s.counted i (s.nodes i).current_term))

-- Votes are only added to a history.
abbrev pub Extends : (ℕ → ℕ → NodeId) → (ℕ → ℕ → NodeId) → Type 0
Extends b b' = (v t : ℕ) → (b v t ≡ 0) ⊎ (b' v t ≡ b v t)

pub Backed-Extends :
    (ms : List NodeId) (b b' : ℕ → ℕ → NodeId) (i t : ℕ) (vs : List NodeId)
    → i ≢ 0
    → Extends b b'
    → Backed ms b i t vs
    → Backed ms b' i t vs
Backed-Extends ms b b' i t [] nz e h = tt
Backed-Extends ms b b' i t (v ∷ vs) nz e h =
    (h.0, h.1, ground (arith, e v t, h), Backed-Extends ms b b' i t vs nz e h.3)

pub nonzero : (ms : List NodeId) (i : ℕ) → mem 0 ms ≡ false → mem i ms ≡ true → i ≢ 0
nonzero ms i z m e = absurd (ground (arith, z, ap (λ k. mem k ms) e, m))

differ : (i j : ℕ) → (i == j) ≡ false → j ≢ i
differ i j h e = absurd (ground (arith, h, e))

set_at-cases {κ} :
    (P : ℕ → Raft → Type κ) (f : ℕ → Raft) (i : ℕ) (r : Raft) (j : ℕ)
    → P i r
    → (j ≢ i → P j (f j))
    → P j (set_at f i r j)
set_at-cases P f i r j here there = elim (Bool-cases (i == j)) [
  | inl e ↦ rw e (subst (λ k. P k r) (==→eq i j e) here)
  | inr e ↦ rw e (there (differ i j e))
]

-- Node i changes, its votes are added to, and so are the votes that it counts.
module _ (ms : List NodeId) (s : Cluster) (inv : Inv ms s) (i : ℕ) (r : Raft) (b : ℕ → ℕ → NodeId)
    (c : ℕ → ℕ → List NodeId) (in_ms : mem i ms ≡ true) (same_id : r.id ≡ (s.nodes i).id)
    (same_peers : r.peers ≡ (s.nodes i).peers) (own : (t : ℕ) → Stands r t (b i t))
    (extends : Extends s.ballot b) (elsewhere : (v t : ℕ) → v ≢ i → b v t ≡ s.ballot v t)
    (counted_elsewhere : (j t : ℕ) → j ≢ i → c j t ≡ s.counted j t)
    (own_backed : (t : ℕ) → Backed ms b i t (c i t))
    (own_elected : Elected r (length (c i r.current_term))) where
  abbrev moved : Cluster
  moved = record { nodes = set_at s.nodes i r; ballot = b; counted = c }

  moved-placed :
      (j : ℕ)
      → mem j ms ≡ true
      → ((moved.nodes j).id ≡ j) × (suc (length (moved.nodes j).peers) ≡ length ms)
  moved-placed j m =
      set_at-cases (λ k x. (x.id ≡ k) × (suc (length x.peers) ≡ length ms)) s.nodes i r j
        (
          same_id ∙ (inv.placed i in_ms).0,
          ap (λ ps. suc (length ps)) same_peers ∙ (inv.placed i in_ms).1,
        )
        (λ ne. inv.placed j m)

  moved-standing : (v t : ℕ) → mem v ms ≡ true → Stands (moved.nodes v) t (b v t)
  moved-standing v t m =
      set_at-cases (λ k x. Stands x t (b k t)) s.nodes i r v (own t)
        (λ ne. rw (elsewhere v t ne) (inv.standing v t m))

  moved-Backed : (j t : ℕ) → mem j ms ≡ true → Backed ms b j t (c j t)
  moved-Backed j t m = elim (Bool-cases (i == j)) [
    | inl e ↦ subst (λ k. Backed ms b k t (c k t)) (==→eq i j e) (own_backed t)
    | inr e ↦ rw (counted_elsewhere j t (differ i j e)) (
        Backed-Extends ms s.ballot b j t (s.counted j t) (nonzero ms j inv.no_zero m) extends
          (inv.backed j t m))
  ]

  moved-elected :
      (j : ℕ)
      → mem j ms ≡ true
      → Elected (moved.nodes j) (length (c j (moved.nodes j).current_term))
  moved-elected j m =
      set_at-cases (λ k x. Elected x (length (c k x.current_term))) s.nodes i r j own_elected
        (λ ne. rw (counted_elsewhere j (s.nodes j).current_term ne) (inv.elected j m))

  pub moved-Inv : Inv ms moved
  moved-Inv = record {
    no_zero = inv.no_zero;
    placed = moved-placed;
    standing = moved-standing;
    backed = moved-Backed;
    elected = moved-elected;
  }

pub majority-peers : (r r' : Raft) → r'.peers ≡ r.peers → majority r' ≡ majority r
unfolding majority
majority-peers r r' h = rw h refl

pub Stands-VoteKept :
    (r r' : Raft) (t : ℕ) (c : NodeId) → VoteKept r r' → Stands r t c → Stands r' t c
Stands-VoteKept r r' t c k h = ground (arith, k, h)

Elected-Stays :
    (r r' : Raft) (n : ℕ → ℕ)
    → Stays r r'
    → Elected r (n r.current_term)
    → Elected r' (n r'.current_term)
Elected-Stays r r' n (same_id, same_peers, inl follows) h = inl follows
Elected-Stays r r' n (same_id, same_peers, inr (led, same_term)) h =
    rw (same_term) (ground (arith, h, led, majority-peers r r' same_peers))

-- Node i casts a vote for c in a term.
pub cast-Stands :
    (r r' : Raft) (b : ℕ → ℕ → NodeId) (i term c t : ℕ)
    → VoteKept r r'
    → Stands r t (b i t)
    → r'.current_term ≡ term
    → r'.voted_for ≡ c
    → Stands r' t (set_in b i term c i t)
cast-Stands r r' b i term c t kept old now for_c = ground (arith, kept, old, now, for_c)

pub cast-Extends :
    (r : Raft) (b : ℕ → ℕ → NodeId) (i term c : ℕ)
    → Stands r term (b i term)
    → (r.current_term < term) ⊎ (r.current_term ≡ term) × ((r.voted_for ≡ 0) ⊎ (r.voted_for ≡ c))
    → Extends b (set_in b i term c)
cast-Extends r b i term c old free v t = elim (Bool-cases (i == v && term == t)) [
  | inl at ↦
      let here : i ≡ v = ground (arith, at) in
      let now : term ≡ t = ground (arith, at) in
      subst (λ x. (b x t ≡ 0) ⊎ (set_in b i term c x t ≡ b x t)) here
        (subst (λ u. (b i u ≡ 0) ⊎ (set_in b i term c i u ≡ b i u)) now (ground (arith, old, free)))
  | inr away ↦ inr (rw away refl)
]

module _ (ms : List NodeId) (s : Cluster) (inv : Inv ms s) (i : ℕ) (in_ms : mem i ms ≡ true) where
  -- No vote is cast, and none counted.
  pub quiet-Inv :
      (r : Raft)
      → VoteKept (s.nodes i) r
      → Stays (s.nodes i) r
      → Inv ms (record s { nodes = set_at s.nodes i r })
  quiet-Inv r kept stays =
      moved-Inv ms s inv i r s.ballot s.counted in_ms stays.0 stays.1
        (λ t. Stands-VoteKept (s.nodes i) r t (s.ballot i t) kept (inv.standing i t in_ms))
        (λ v t. inr refl) (λ v t ne. refl) (λ j t ne. refl) (λ t. inv.backed i t in_ms)
        (Elected-Stays (s.nodes i) r (λ t. length (s.counted i t)) stays (inv.elected i in_ms))

  pub granted-Inv :
      (t : Tick) (args : RequestVoteArgs)
      → (handle_request_vote t args (s.nodes i)).1.vote_granted ≡ true
      → Inv ms (record s {
        nodes = set_at s.nodes i (handle_request_vote t args (s.nodes i)).0;
        ballot =
            set_in s.ballot i (handle_request_vote t args (s.nodes i)).1.term args.candidate_id;
      })
  granted-Inv t args g =
      let r = (handle_request_vote t args (s.nodes i)).0 in
      let term = (handle_request_vote t args (s.nodes i)).1.term in
      let facts = granted_vote t args (s.nodes i) g in
      let kept = handle_request_vote-VoteKept t args (s.nodes i) in
      let stays = handle_request_vote-Stays t args (s.nodes i) in
      let b = set_in s.ballot i term args.candidate_id in
      let more : Extends s.ballot b =
        cast-Extends (s.nodes i) s.ballot i term args.candidate_id (inv.standing i term in_ms)
          facts.2 in
      moved-Inv ms s inv i r b s.counted in_ms stays.0 stays.1
        (λ u.
          cast-Stands (s.nodes i) r s.ballot i term args.candidate_id u kept
            (inv.standing i u in_ms) facts.1 facts.0)
        more (λ v u ne. ground (arith, ne)) (λ j u ne. refl)
        (λ u.
          Backed-Extends ms s.ballot b i u (s.counted i u) (nonzero ms i inv.no_zero in_ms) more
            (inv.backed i u in_ms))
        (Elected-Stays (s.nodes i) r (λ u. length (s.counted i u)) stays (inv.elected i in_ms))
