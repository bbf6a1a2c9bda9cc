-- ===== src/Raftlog/Contiguous.antt =====
-- internal/raftlog/log.go: entries whose indices follow one another, as the log keeps them.
use uptime_monitor.Prelude.{
  ℕ, zero, suc, ◌+◌, ◌≤◌, ◌<◌, ◌≡◌, refl, ap, ◌∙◌, some, List, [], ◌∷◌, ◌++◌, length, take, drop,
  get_elem?, arith,
}
use uptime_monitor.Raftlog.Entry.{Entry}
use uptime_monitor.Raftlog.Log.{last_of}

abbrev pub Contiguous : ℕ → List Entry → Type 0
Contiguous n [] = Unit
Contiguous n (e ∷ es) = (e.index ≡ n) × Contiguous (suc n) es

pub last_of-Contiguous :
    (n : ℕ) (es : List Entry) → Contiguous (suc n) es → last_of n es ≡ n + length es
last_of-Contiguous n [] h = omega arith
last_of-Contiguous n (e ∷ es) h =
    ap (λ k. last_of k es) h.0 ∙ last_of-Contiguous (suc n) es h.1 ∙ omega arith

pub Contiguous-snoc :
    (n : ℕ) (es : List Entry) (e : Entry)
    → Contiguous n es
    → e.index ≡ n + length es
    → Contiguous n (es ++ e ∷ [])
Contiguous-snoc n [] e h i = (omega arith, tt)
Contiguous-snoc n (x ∷ xs) e h i = (h.0, Contiguous-snoc (suc n) xs e h.1 (omega arith))

pub Contiguous-take : (k n : ℕ) (es : List Entry) → Contiguous n es → Contiguous n (take k es)
Contiguous-take zero n es h = tt
Contiguous-take (suc k) n [] h = tt
Contiguous-take (suc k) n (e ∷ es) h = (h.0, Contiguous-take k (suc n) es h.1)

pub Contiguous-drop :
    (k n m : ℕ) (es : List Entry)
    → Contiguous n es
    → k ≤ length es
    → m ≡ n + k
    → Contiguous m (drop k es)
Contiguous-drop zero n m es h le e = let q : m ≡ n = omega arith in rw q h
Contiguous-drop (suc k) n m [] h le e = tt
Contiguous-drop (suc k) n m (x ∷ xs) h le e =
    Contiguous-drop k (suc n) m xs h.1 (omega arith) (omega arith)

-- The entry at a position has the index that its position says.
pub get_elem?-Contiguous :
    (n k : ℕ) (es : List Entry)
    → Contiguous n es
    → k < length es
    → (e : Entry) × (get_elem? es k ≡ some e) × (e.index ≡ n + k)
get_elem?-Contiguous n k [] h lt = absurd (omega arith)
get_elem?-Contiguous n zero (e ∷ es) h lt = (e, refl, omega arith)
get_elem?-Contiguous n (suc k) (e ∷ es) h lt =
    let (x, found, i) = get_elem?-Contiguous (suc n) k es h.1 (omega arith) in
    (x, found, omega arith)
