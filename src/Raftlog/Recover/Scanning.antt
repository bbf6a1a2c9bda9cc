-- ===== src/Raftlog/Recover/Scanning.antt =====
-- internal/raftlog/log.go: the loop of `recover` over a file of whole records and a torn tail.
use uptime_monitor.Prelude.{
  ℕ, zero, suc, ◌+◌, ◌≤◌, ◌<◌, ◌≡◌, refl, sym, ap, ◌∙◌, true, none, some, List, [], ◌∷◌, ◌++◌,
  length, take, length-append, append-nil, append_assoc, All, arith,
}
use uptime_monitor.Raftlog.Bytes.{Bytes}
use uptime_monitor.Raftlog.Entry.{Entry, Fits}
use uptime_monitor.Raftlog.Record.{record_of, read_record, encode_all, starts}
use uptime_monitor.Raftlog.Record.Reading.{read-record_of, read_torn, read_end, length-record_of}
use uptime_monitor.Raftlog.Contiguous.{Contiguous}
use uptime_monitor.Raftlog.Recover.{Scan, turn, scan}

-- Bytes at which the loop breaks off, wherever they stand at the end of a file.
abbrev pub IsTorn : Bytes → Type 0
IsTorn tail = (pre : Bytes) → read_record (pre ++ tail) (length pre) ≡ none

pub record-IsTorn :
    (e : Entry) (k : ℕ) → Fits e → k < length (record_of e) → IsTorn (take k (record_of e))
record-IsTorn e k f h pre = read_torn e pre k f h

pub nil-IsTorn : IsTorn []
nil-IsTorn = read_end

turn_torn :
    (file : Bytes) (si : ℕ) (s : Scan) → read_record file s.off ≡ none → turn file si s ≡ none
unfolding turn
turn_torn file si s h = rw h (ground arith)

scan_torn :
    (fuel : ℕ) (file : Bytes) (si : ℕ) (s : Scan)
    → read_record file s.off ≡ none
    → scan fuel file si s ≡ s
unfolding scan
scan_torn zero file si s h = refl
scan_torn (suc fuel) file si s h = rw (turn_torn file si s h, scan)

-- A turn that keeps its entry, and one that drops it as covered by the snapshot.
abbrev kept : Entry → Scan → Scan
kept e s = record s {
  entries = s.entries ++ e ∷ [];
  offsets = s.offsets ++ s.off ∷ [];
  off = s.off + length (record_of e);
  expected = suc s.expected;
}

abbrev dropped : Entry → Scan → Scan
dropped e s = record s { off = s.off + length (record_of e); skipped_prefix = true }

turn-kept :
    (file : Bytes) (si : ℕ) (s : Scan) (e : Entry)
    → s.off < length file
    → read_record file s.off ≡ some (e, s.off + length (record_of e))
    → e.index ≡ s.expected
    → si < s.expected
    → suc s.expected < 18446744073709551616
    → turn file si s ≡ some (kept e s)
unfolding turn
turn-kept file si s e inside r i above room = rw r (ground arith)

turn-dropped :
    (file : Bytes) (si : ℕ) (s : Scan) (e : Entry)
    → s.off < length file
    → read_record file s.off ≡ some (e, s.off + length (record_of e))
    → e.index ≤ si
    → turn file si s ≡ some (dropped e s)
unfolding turn
turn-dropped file si s e inside r i = rw r (ground arith)

scan_step :
    (fuel : ℕ) (file : Bytes) (si : ℕ) (s s' : Scan)
    → turn file si s ≡ some s'
    → scan (suc fuel) file si s ≡ scan fuel file si s'
unfolding scan
scan_step fuel file si s s' h = rw (h, scan)

-- The record at the end of `pre`, in a file that goes on with it.
record_at :
    (file pre post : Bytes) (e : Entry) (off : ℕ)
    → file ≡ pre ++ (record_of e ++ post)
    → off ≡ length pre
    → Fits e
    → (off < length file) × (read_record file off ≡ some (e, off + length (record_of e)))
record_at file pre post e off f o h = (
  omega (
    arith,
    o,
    ap length f,
    length-append pre (record_of e ++ post),
    length-append (record_of e) post,
    length-record_of e,
  ),
  rw (f, o) (read-record_of e pre post h),
)

regroup :
    (file pre tail : Bytes) (e : Entry) (es : List Entry)
    → file ≡ pre ++ (encode_all (e ∷ es) ++ tail)
    → (file ≡ pre ++ (record_of e ++ (encode_all es ++ tail)))
      × (file ≡ (pre ++ record_of e) ++ (encode_all es ++ tail))
unfolding encode_all
regroup file pre tail e es f =
    let g = f ∙ ap (λ x. pre ++ x) (append_assoc (record_of e) (encode_all es) tail) in
    (g, g ∙ sym (append_assoc pre (record_of e) (encode_all es ++ tail)))

-- The loop, from the start of contiguous records to the torn tail behind them.
abbrev pub scanned : List Entry → Scan → Scan
scanned es s = record s {
  entries = s.entries ++ es;
  offsets = s.offsets ++ starts s.off es;
  off = s.off + length (encode_all es);
  expected = s.expected + length es;
}

scan_eq :
    (s t : Scan)
    → s.off ≡ t.off
    → s.entries ≡ t.entries
    → s.offsets ≡ t.offsets
    → s.expected ≡ t.expected
    → s.skipped_prefix ≡ t.skipped_prefix
    → s ≡ t
scan_eq s t p q r u v =
    λ i. record { off = p i; entries = q i; offsets = r i; expected = u i; skipped_prefix = v i }

scanned_nil : (s : Scan) → s ≡ scanned [] s
unfolding encode_all starts
scanned_nil s =
    scan_eq s (scanned [] s) (omega arith) (sym (append-nil s.entries)) (sym (append-nil s.offsets))
      (omega arith) refl

scanned_cons : (e : Entry) (es : List Entry) (s : Scan) → scanned es (kept e s) ≡ scanned (e ∷ es) s
unfolding encode_all starts
scanned_cons e es s =
    scan_eq (scanned es (kept e s)) (scanned (e ∷ es) s)
      (omega (arith, length-append (record_of e) (encode_all es)))
      (append_assoc s.entries (e ∷ []) es)
      (append_assoc s.offsets (s.off ∷ []) (starts (s.off + length (record_of e)) es)) (omega arith)
      refl

pub scan-kept :
    (es : List Entry) (fuel : ℕ) (file pre tail : Bytes) (si : ℕ) (s : Scan)
    → file ≡ pre ++ (encode_all es ++ tail)
    → s.off ≡ length pre
    → IsTorn tail
    → length es ≤ fuel
    → Contiguous s.expected es
    → si < s.expected
    → s.expected + length es < 18446744073709551616
    → All Fits es
    → scan fuel file si s ≡ scanned es s
scan-kept [] fuel file pre tail si s f o torn enough c above room fit =
    scan_torn fuel file si s (rw (f, o) (unfold encode_all in torn pre)) ∙ scanned_nil s
scan-kept (e ∷ es) zero file pre tail si s f o torn enough c above room fit = absurd (omega arith)
scan-kept (e ∷ es) (suc fuel) file pre tail si s f o torn enough c above room fit =
    let (g, g') = regroup file pre tail e es f in
    let (inside, r) = record_at file pre (encode_all es ++ tail) e s.off g o fit.0 in
    scan_step fuel file si s (kept e s) (turn-kept file si s e inside r c.0 above (omega arith))
    ∙ scan-kept es fuel file (pre ++ record_of e) tail si (kept e s) g'
        (omega (arith, o, length-append pre (record_of e))) torn (omega arith) c.1 (omega arith)
        (omega arith) fit.1
    ∙ scanned_cons e es s

-- The loop over records that the snapshot covers.
abbrev pub skipped : List Entry → Scan → Scan
skipped [] s = s
skipped (e ∷ es) s = skipped es (dropped e s)

pub scan-skipped :
    (es : List Entry) (fuel : ℕ) (file pre tail : Bytes) (si : ℕ) (s : Scan)
    → file ≡ pre ++ (encode_all es ++ tail)
    → s.off ≡ length pre
    → All (λ e. e.index ≤ si) es
    → All Fits es
    → scan (length es + fuel) file si s ≡ scan fuel file si (skipped es s)
scan-skipped [] fuel file pre tail si s f o covered fit = ap (λ n. scan n file si s) (omega arith)
scan-skipped (e ∷ es) fuel file pre tail si s f o covered fit =
    let (g, g') = regroup file pre tail e es f in
    let (inside, r) = record_at file pre (encode_all es ++ tail) e s.off g o fit.0 in
    ap (λ n. scan n file si s) {y = suc (length es + fuel)} (omega arith)
    ∙ scan_step (length es + fuel) file si s (dropped e s)
        (turn-dropped file si s e inside r covered.0)
    ∙ scan-skipped es fuel file (pre ++ record_of e) tail si (dropped e s) g'
        (omega (arith, o, length-append pre (record_of e))) covered.1 fit.1

-- Only the offset and the flag have moved.
pub skipped_lem :
    (es : List Entry) (s : Scan)
    → ((skipped es s).entries ≡ s.entries)
      × ((skipped es s).offsets ≡ s.offsets)
      × ((skipped es s).expected ≡ s.expected)
      × ((skipped es s).off ≡ s.off + length (encode_all es))
unfolding encode_all
skipped_lem [] s = (refl, refl, refl, omega arith)
skipped_lem (e ∷ es) s =
    let (a, b, c, d) = skipped_lem es (dropped e s) in
    (a, b, c, omega (arith, d, length-append (record_of e) (encode_all es)))

pub skipped-flag :
    (e : Entry) (es : List Entry) (s : Scan) → (skipped (e ∷ es) s).skipped_prefix ≡ true
skipped-flag e [] s = refl
skipped-flag e (x ∷ xs) s = skipped-flag x xs (dropped e s)
