-- ===== src/Raft/Cluster/Quorum.antt =====
-- Two majorities of the same members have a member in common.
use uptime_monitor.Prelude.{
  ℕ, ◌+◌, ◌<◌, ◌≡◌, inl, inr, refl, Bool, true, false, ◌&&◌, ◌||◌, Bool-cases, List, [], ◌∷◌, ◌==◌,
  if◌then◌else◌, length, arith,
}

abbrev pub mem : ℕ → List ℕ → Bool
mem x [] = false
mem x (y ∷ ys) = (y == x) || mem x ys

abbrev pub AreDistinct : List ℕ → Type 0
AreDistinct [] = Unit
AreDistinct (x ∷ xs) = (mem x xs ≡ false) × AreDistinct xs

abbrev pub AreIn : List ℕ → List ℕ → Type 0
AreIn ms [] = Unit
AreIn ms (x ∷ xs) = (mem x ms ≡ true) × AreIn ms xs

remove : ℕ → List ℕ → List ℕ
remove x [] = []
remove x (y ∷ ys) = let rest = remove x ys in if y == x then rest else y ∷ rest

mem-remove : (x z : ℕ) (xs : List ℕ) → mem z (remove x xs) ≡ (if x == z then false else mem z xs)
unfolding remove
mem-remove x z [] = ground arith
mem-remove x z (y ∷ ys) = ground (arith, mem-remove x z ys)

remove-AreDistinct : (x : ℕ) (xs : List ℕ) → AreDistinct xs → AreDistinct (remove x xs)
unfolding remove
remove-AreDistinct x [] d = tt
remove-AreDistinct x (y ∷ ys) d = ground (arith, d, remove-AreDistinct x ys d.1, mem-remove x y ys)

remove_absent : (x : ℕ) (xs : List ℕ) → mem x xs ≡ false → remove x xs ≡ xs
unfolding remove
remove_absent x [] h = refl
remove_absent x (y ∷ ys) h = ground (arith, h, remove_absent x ys)

length-remove :
    (x : ℕ) (xs : List ℕ)
    → AreDistinct xs
    → length (remove x xs) + (if mem x xs then 1 else 0) ≡ length xs
unfolding remove
length-remove x [] d = omega arith
length-remove x (y ∷ ys) d = ground (arith, d, length-remove x ys d.1)

AreIn-remove : (m : ℕ) (ms xs : List ℕ) → AreIn (m ∷ ms) xs → AreIn ms (remove m xs)
unfolding remove
AreIn-remove m ms [] h = tt
AreIn-remove m ms (y ∷ ys) h = ground (arith, h, AreIn-remove m ms ys h.1)

abbrev Both : List ℕ → List ℕ → Type 0
Both xs ys = (z : ℕ) × (mem z xs ≡ true) × (mem z ys ≡ true)

-- More places than members are taken by two lists of them, so they share one.
pub overlap :
    (ms xs ys : List ℕ)
    → AreDistinct xs
    → AreDistinct ys
    → AreIn ms xs
    → AreIn ms ys
    → length ms < length xs + length ys
    → Both xs ys
overlap [] [] [] dx dy ix iy h = absurd (omega arith)
overlap [] (x ∷ xs) ys dx dy ix iy h = absurd (ground (arith, ix))
overlap [] [] (y ∷ ys) dx dy ix iy h = absurd (ground (arith, iy))
overlap (m ∷ ms) xs ys dx dy ix iy h = elim (Bool-cases (mem m xs && mem m ys)) [
  | inl shared ↦ (m, ground (arith, shared), ground (arith, shared))
  | inr apart ↦
      let (z, inx, iny) =
        overlap ms (remove m xs) (remove m ys) (remove-AreDistinct m xs dx)
          (remove-AreDistinct m ys dy) (AreIn-remove m ms xs ix) (AreIn-remove m ms ys iy)
          (ground (arith, h, apart, length-remove m xs dx, length-remove m ys dy)) in
      (z, ground (arith, inx, mem-remove m z xs), ground (arith, iny, mem-remove m z ys))
]
