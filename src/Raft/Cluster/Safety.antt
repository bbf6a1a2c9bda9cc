-- ===== src/Raft/Cluster/Safety.antt =====
-- internal/raft/raft.go: at most one leader in a term.
use uptime_monitor.Prelude.{
  ℕ, suc, ◌*◌, ◌<◌, ◌≡◌, inl, inr, sym, ap, subst, ◌∙◌, true, false, Bool-cases, List, [], ◌∷◌,
  ◌==◌, ==→eq, length, arith,
}
use uptime_monitor.Raft.Node.{NodeId}
use uptime_monitor.Raft.Roles.{is_leader, majority}
use uptime_monitor.Raft.Cluster.Quorum.{mem, AreDistinct, AreIn, overlap}
use uptime_monitor.Raft.Cluster.System.{Cluster, Reach}
use uptime_monitor.Raft.Cluster.Steps.{Reach-Inv}
use uptime_monitor.Raft.Cluster.Invariant.{Backed, Inv}

-- Nodes that know each other, none a leader, with no vote in any history.
pub record IsInitial (ms : List NodeId) (s : Cluster) : Type 0 where
  pub no_zero : mem 0 ms ≡ false
  pub placed :
      (i : ℕ)
      → mem i ms ≡ true
      → ((s.nodes i).id ≡ i) × (suc (length (s.nodes i).peers) ≡ length ms)
  pub no_votes : (v t : ℕ) → s.ballot v t ≡ 0
  pub none_counted : (i t : ℕ) → s.counted i t ≡ []
  pub no_leader : (i : ℕ) → mem i ms ≡ true → is_leader (s.nodes i).state ≡ false

IsInitial-Inv : (ms : List NodeId) (s : Cluster) → IsInitial ms s → Inv ms s
IsInitial-Inv ms s start = record {
  no_zero = start.no_zero;
  placed = start.placed;
  standing = λ v t m. inl (start.no_votes v t);
  backed = λ i t m. rw (start.none_counted i t) tt;
  elected = λ i m. inl (start.no_leader i m);
}

Backed-AreIn :
    (ms : List NodeId) (b : ℕ → ℕ → NodeId) (i t : ℕ) (vs : List NodeId)
    → Backed ms b i t vs
    → AreIn ms vs × AreDistinct vs
Backed-AreIn ms b i t [] h = (tt, tt)
Backed-AreIn ms b i t (v ∷ vs) h =
    let (ins, ds) = Backed-AreIn ms b i t vs h.3 in ((h.0, ins), (h.1, ds))

Backed-ballot :
    (ms : List NodeId) (b : ℕ → ℕ → NodeId) (i t v : ℕ) (vs : List NodeId)
    → Backed ms b i t vs
    → mem v vs ≡ true
    → b v t ≡ i
Backed-ballot ms b i t v [] h m = ground (arith, m)
Backed-ballot ms b i t v (w ∷ vs) h m = elim (Bool-cases (w == v)) [
  | inl e ↦ subst (λ x. b x t ≡ i) (==→eq w v e) h.2
  | inr e ↦ Backed-ballot ms b i t v vs h.3 (ground (arith, m, e))
]

outvotes :
    (ms : List NodeId) (s : Cluster)
    → Inv ms s
    → (i : ℕ) → mem i ms ≡ true
    → is_leader (s.nodes i).state ≡ true
    → length ms < 2 * length (s.counted i (s.nodes i).current_term)
unfolding majority
outvotes ms s inv i i_in leads = ground (arith, inv.elected i i_in, (inv.placed i i_in).1, leads)

-- Election safety. In a cluster whose members are known, with no votes and no leader at the start:
-- over any steps, in which messages are lost, delayed and reordered and nodes crash and restart on
-- their saved hard states, but no granted vote is forged, none is counted twice in an election and
-- no term runs out of numbers, two members that lead in the same term are the same.
pub one_leader_per_term :
    (ms : List NodeId) (s u : Cluster) (i j : ℕ)
    → IsInitial ms s
    → Reach ms s u
    → mem i ms ≡ true
    → mem j ms ≡ true
    → is_leader (u.nodes i).state ≡ true
    → is_leader (u.nodes j).state ≡ true
    → (u.nodes i).current_term ≡ (u.nodes j).current_term
    → i ≡ j
one_leader_per_term ms s u i j start reach i_in j_in leads_i leads_j same =
    let inv = Reach-Inv ms (IsInitial-Inv ms s start) reach in
    let term = (u.nodes i).current_term in
    let backed_i = inv.backed i term i_in in
    let backed_j = inv.backed j term j_in in
    let (ins_i, ds_i) = Backed-AreIn ms u.ballot i term (u.counted i term) backed_i in
    let (ins_j, ds_j) = Backed-AreIn ms u.ballot j term (u.counted j term) backed_j in
    let (v, in_i, in_j) = overlap ms (u.counted i term) (u.counted j term) ds_i ds_j ins_i ins_j (
      omega (
        arith,
        outvotes ms u inv i i_in leads_i,
        outvotes ms u inv j j_in leads_j,
        ap (λ x. length (u.counted j x)) same,
      )) in
    sym (Backed-ballot ms u.ballot i term v (u.counted i term) backed_i in_i)
    ∙ Backed-ballot ms u.ballot j term v (u.counted j term) backed_j in_j
