-- ===== src/Raft/Commit.antt =====
-- internal/raft/raft.go, `maybeAdvanceCommitLocked`: what the leader commits.
use uptime_monitor.Prelude.{
  ℕ, zero, suc, ◌+◌, ◌-◌, ◌≤◌, ◌<◌, ◌≡◌, ◌≢◌, ◌⊎◌, inl, inr, refl, sym, ap, ◌∙◌, Bool, true, false,
  ◌&&◌, Bool-cases, if◌then◌else◌, leb, ◌==◌, arith,
}
use uptime_monitor.Raftlog.Log.{u64, last_index, term_at}
use uptime_monitor.Raft.Node.{Raft}
use uptime_monitor.Raft.Roles.{majority}
use uptime_monitor.Raft.Replication.{acks, consider, consider_from, maybe_advance_commit}

-- An entry that the leader may commit: it is in the log, it is of the leader's own term, and a
-- majority of the cluster has it, the leader counted.
abbrev pub IsCommittable : ℕ → Raft → Type 0
IsCommittable n r =
    (term_at r.log n ≡ (r.current_term, true)) × (majority r ≤ 1 + acks n r.peers r.match_index)

eq-cases : (m n : ℕ) → (m ≡ n) ⊎ (m ≢ n)
eq-cases m n = ground arith

leb-cases : (m n : ℕ) → (m ≤ n) ⊎ (n < m)
leb-cases m n = ground arith

abbrev committable : ℕ → Raft → Bool
committable n r =
    ((term_at r.log n).1 && (term_at r.log n).0 == r.current_term)
    && leb (majority r) (1 + acks n r.peers r.match_index)

committable-IsCommittable : (n : ℕ) (r : Raft) → committable n r ≡ true → IsCommittable n r
committable-IsCommittable n r h = ground arith

IsCommittable-committable : (n : ℕ) (r : Raft) → IsCommittable n r → committable n r ≡ true
IsCommittable-committable n r (e, m) = ground arith

-- The commit index after the rest of the loop.
abbrev last_committable : ℕ → ℕ → Raft → ℕ → ℕ
last_committable zero n r c = c
last_committable (suc rounds) n r c =
    last_committable rounds (n + 1) r (if committable n r then n else c)

consider_lem :
    (n : ℕ) (r : Raft)
    → consider n r ≡ record r { commit_index = if committable n r then n else r.commit_index }
unfolding consider
consider_lem n r = ground arith

-- A counter below the end of uint64 does not wrap around.
u64_small : (n : ℕ) → n < 18446744073709551616 → u64 n ≡ n
u64_small n h = omega (arith, h)

-- With room above the last index, the loop runs from n up to it, whatever fuel is left.
consider_from_lem :
    (fuel n last : ℕ) (r : Raft) (c : ℕ)
    → suc last < 18446744073709551616
    → last < n + fuel
    → consider_from fuel n last (record r { commit_index = c })
      ≡ record r { commit_index = last_committable (last + 1 - n) n r c }
unfolding consider_from majority
consider_from_lem zero n last r c room enough =
    let over : last + 1 - n ≡ 0 = omega (arith, enough) in rw over refl
consider_from_lem (suc fuel) n last r c room enough = elim (leb-cases n last) [
  | inl more ↦
      let step : last + 1 - n ≡ suc (last + 1 - (n + 1)) = omega (arith, more) in
      let same : u64 (n + 1) ≡ n + 1 = u64_small (n + 1) (omega (arith, more, room)) in
      let yes_more : leb n last ≡ true = ground (arith, more) in
      rw yes_more (
        rw same (
          rw step (
            ap (consider_from fuel (n + 1) last) (consider_lem n (record r { commit_index = c }))
            ∙ consider_from_lem fuel (n + 1) last r (if committable n r then n else c) room
                (omega (arith, enough)))))
  | inr over ↦
      let no_more : leb n last ≡ false = ground (arith, over) in
      let none_left : last + 1 - n ≡ 0 = omega (arith, over) in rw no_more (rw none_left refl)
]

-- The loop moves nothing but the commit index, whether it ends or not.
consider_from-commits :
    (fuel n last : ℕ) (r : Raft)
    → consider_from fuel n last r
      ≡ record r { commit_index = (consider_from fuel n last r).commit_index }
unfolding consider_from
consider_from-commits zero n last r = refl
consider_from-commits (suc fuel) n last r = elim (Bool-cases (leb n last)) [
  | inl h ↦
      let c = (consider_from fuel (u64 (n + 1)) last (consider n r)).commit_index in
      rw h (
        consider_from-commits fuel (u64 (n + 1)) last (consider n r)
        ∙ ap {A = Raft} (λ x. record x { commit_index = c }) (consider_lem n r))
  | inr h ↦ rw h refl
]

last_committable_lem :
    (rounds n : ℕ) (r : Raft) (c : ℕ)
    → (last_committable rounds n r c ≡ c)
      ⊎ (n ≤ last_committable rounds n r c)
        × (last_committable rounds n r c < n + rounds)
        × (committable (last_committable rounds n r c) r ≡ true)
last_committable_lem zero n r c = inl refl
last_committable_lem (suc rounds) n r c = elim (Bool-cases (committable n r)) [
  | inl good ↦
      ground (arith, good, last_committable_lem rounds (n + 1) r (if committable n r then n else c))
  | inr bad ↦
      ground (arith, bad, last_committable_lem rounds (n + 1) r (if committable n r then n else c))
]

-- Nothing behind the result is committable.
last_committable_greatest :
    (rounds n m : ℕ) (r : Raft) (c : ℕ)
    → c < n
    → n ≤ m
    → m < n + rounds
    → committable m r ≡ true
    → m ≤ last_committable rounds n r c
last_committable_greatest zero n m r c below lo hi good = omega (arith, lo, hi)
last_committable_greatest (suc rounds) n m r c below lo hi good = elim (eq-cases m n) [
  | inl at_n ↦
      let here : committable n r ≡ true = rw (sym at_n) good in
      ground (arith, here, at_n, last_committable_lem rounds (n + 1) r n)
  | inr past ↦
      last_committable_greatest rounds (n + 1) m r (if committable n r then n else c)
        (ground (arith, below)) (omega (arith, lo, past)) (omega (arith, hi)) good
]

-- The commit index and the last index have room in a uint64 for one more.
abbrev pub HasRoom : Raft → Type 0
HasRoom r =
    (suc r.commit_index < 18446744073709551616) × (suc (last_index r.log) < 18446744073709551616)

maybe_advance_commit_lem :
    (r : Raft)
    → HasRoom r
    → maybe_advance_commit r ≡ record r {
      commit_index =
          last_committable
            (last_index r.log - r.commit_index)
            (r.commit_index + 1)
            r
            r.commit_index;
    }
unfolding maybe_advance_commit
maybe_advance_commit_lem r (commit_room, last_room) =
    let last = last_index r.log in
    let same : u64 (r.commit_index + 1) ≡ r.commit_index + 1 =
      u64_small (r.commit_index + 1) (omega (arith, commit_room)) in
    let rounds : last + 1 - (r.commit_index + 1) ≡ last - r.commit_index = omega arith in
    ap (λ n. consider_from (last + 1) n last r) same
    ∙ consider_from_lem (last + 1) (r.commit_index + 1) last r r.commit_index last_room
        (omega arith)
    ∙ ap {A = ℕ}
        (λ k. record r { commit_index = last_committable k (r.commit_index + 1) r r.commit_index })
        rounds

pub maybe_advance_commit-commits :
    (r : Raft)
    → maybe_advance_commit r ≡ record r { commit_index = (maybe_advance_commit r).commit_index }
unfolding maybe_advance_commit
maybe_advance_commit-commits r =
    consider_from-commits (last_index r.log + 1) (u64 (r.commit_index + 1)) (last_index r.log) r

pub maybe_advance_commit-last_applied :
    (r : Raft) → (maybe_advance_commit r).last_applied ≡ r.last_applied
maybe_advance_commit-last_applied r =
    ap (λ (x : Raft). x.last_applied) (maybe_advance_commit-commits r)

-- The commit rule of `maybeAdvanceCommitLocked`, when the commit index and the last index are below
-- the greatest uint64: the commit index stays, or it goes forward to an entry of the log that is
-- of the leader's own term and that a majority of the cluster has.
pub maybe_advance_commit-IsCommittable :
    (r : Raft)
    → HasRoom r
    → ((maybe_advance_commit r).commit_index ≡ r.commit_index)
      ⊎ (r.commit_index < (maybe_advance_commit r).commit_index)
        × ((maybe_advance_commit r).commit_index ≤ last_index r.log)
        × IsCommittable (maybe_advance_commit r).commit_index r
maybe_advance_commit-IsCommittable r room =
    let rounds = last_index r.log - r.commit_index in
    rw (maybe_advance_commit_lem r room)
      (elim (last_committable_lem rounds (r.commit_index + 1) r r.commit_index) [
        | inl same ↦ inl same
        | inr (lo, hi, good) ↦
            inr (omega (arith, lo), omega (arith, lo, hi), committable-IsCommittable _ r good)
      ])

-- When the commit index and the last index are below the greatest uint64,
-- `maybeAdvanceCommitLocked` commits all it may: an entry of the log that is of the leader's own
-- term and that a majority of the cluster has is at the new commit index or below.
pub maybe_advance_commit_greatest :
    (n : ℕ) (r : Raft)
    → HasRoom r
    → n ≤ last_index r.log
    → IsCommittable n r
    → n ≤ (maybe_advance_commit r).commit_index
maybe_advance_commit_greatest n r room hi good =
    rw (maybe_advance_commit_lem r room) (elim (leb-cases n r.commit_index) [
      | inl low ↦ ground (
        arith,
        low,
        last_committable_lem (last_index r.log - r.commit_index) (r.commit_index + 1) r
            r.commit_index,
      )
      | inr high ↦
          last_committable_greatest (last_index r.log - r.commit_index) (r.commit_index + 1) n r
            r.commit_index (omega arith) (omega (arith, high)) (omega (arith, high, hi))
            (IsCommittable-committable n r good)
    ])
