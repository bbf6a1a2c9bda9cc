-- ===== src/Raftlog/SnapshotFile/Laws.antt =====
-- internal/raftlog/snapshot.go: what is written is read.
use uptime_monitor.Prelude.{
  ℕ, ◌+◌, ◌^◌, ◌%◌, ◌<◌, ◌≡◌, sym, ap, ◌∙◌, some, ◌++◌, length, take, drop, length-append,
  take-append_length, drop-append_length, drop-append_past, append_assoc, arith,
}
use uptime_monitor.Raftlog.Bytes.{
  Bytes, slice, put_be, get_be, checksum, checksum_bound, length-put_be, get-put_be,
}
use uptime_monitor.Raftlog.Error.{ok}
use uptime_monitor.Raftlog.SnapshotFile.{Snapshot, snapshot_bytes, read_snapshot_file}

-- The fields of the file, by position: two of 8 bytes, two of 4 bytes, the rest.
module _ (a b c d rest : Bytes) (la : length a ≡ 8) (lb : length b ≡ 8) (lc : length c ≡ 4)
    (ld : length d ≡ 4) where
  abbrev image : Bytes
  image = (a ++ b) ++ (c ++ (d ++ rest))

  length-ab : length (a ++ b) ≡ 16
  length-ab = omega (arith, length-append a b)

  image_first : slice 0 8 image ≡ a
  image_first = ap (take 8) (append_assoc a b _) ∙ take-append_length a _ 8 (sym la)

  image_second : slice 8 16 image ≡ b
  image_second =
      ap (λ x. take 8 (drop 8 x)) (append_assoc a b _)
      ∙ (ap (take 8) (drop-append_length a _ 8 (sym la)) ∙ take-append_length b _ 8 (sym lb))

  image_signed : slice 0 16 image ≡ a ++ b
  image_signed = take-append_length (a ++ b) _ 16 (sym length-ab)

  image_length_field : slice 16 20 image ≡ c
  image_length_field =
      ap (take 4) (drop-append_length (a ++ b) _ 16 (sym length-ab))
      ∙ take-append_length c _ 4 (sym lc)

  image_crc : slice 20 24 image ≡ d
  image_crc =
      ap (take 4) (
        drop-append_past (a ++ b) _ 20 16 length-ab (omega arith)
        ∙ drop-append_length c _ 4 (sym lc))
      ∙ take-append_length d rest 4 (sym ld)

  image_rest : drop 24 image ≡ rest
  image_rest =
      drop-append_past (a ++ b) _ 24 16 length-ab (omega arith)
      ∙ (drop-append_past c _ 8 4 lc (omega arith) ∙ drop-append_length d rest 4 (sym ld))

  length-image : length image ≡ 24 + length rest
  length-image = omega (
    arith,
    length-ab,
    length-append (a ++ b) (c ++ (d ++ rest)),
    length-append c (d ++ rest),
    length-append d rest,
  )

read_fields :
    (b : Bytes) (s : Snapshot) (crc : ℕ)
    → length b ≡ 24 + length s.bytes
    → get_be (slice 16 20 b) ≡ length s.bytes
    → checksum (slice 0 16 b ++ drop 24 b) ≡ crc
    → get_be (slice 20 24 b) ≡ crc
    → get_be (slice 0 8 b) ≡ s.index
    → get_be (slice 8 16 b) ≡ s.term
    → drop 24 b ≡ s.bytes
    → read_snapshot_file (some b) ≡ ok (some s)
unfolding read_snapshot_file
read_fields b s crc hl hd hc hr hi ht hb = ground arith

-- A snapshot whose values are in range is read back whole from the file that is written for it.
pub read-snapshot_bytes :
    (s : Snapshot)
    → s.index < 2 ^ 64
    → s.term < 2 ^ 64
    → length s.bytes < 2 ^ 32
    → read_snapshot_file (some (snapshot_bytes s)) ≡ ok (some s)
unfolding snapshot_bytes
read-snapshot_bytes s hi ht hb =
    read_fields (snapshot_bytes s) s (checksum ((p8 ++ q8) ++ s.bytes))
      (length-image p8 q8 l4 c4 s.bytes lp lq ll lc)
      (ap get_be (image_length_field p8 q8 l4 c4 s.bytes lp lq ll lc)
        ∙ get-put_be 4 (length s.bytes % 2 ^ 32) (omega arith)
        ∙ omega arith)
      (ap checksum (
        ap (λ x. x ++ drop 24 (snapshot_bytes s)) (image_signed p8 q8 l4 c4 s.bytes lp lq ll lc)
        ∙ ap (λ x. (p8 ++ q8) ++ x) (image_rest p8 q8 l4 c4 s.bytes lp lq ll lc)))
      (ap get_be (image_crc p8 q8 l4 c4 s.bytes lp lq ll lc)
        ∙ get-put_be 4 _ (omega (arith, checksum_bound ((p8 ++ q8) ++ s.bytes))))
      (ap get_be (image_first p8 q8 l4 c4 s.bytes lp lq ll lc) ∙ get-put_be 8 s.index (omega arith))
      (ap get_be (image_second p8 q8 l4 c4 s.bytes lp lq ll lc) ∙ get-put_be 8 s.term (omega arith))
      (image_rest p8 q8 l4 c4 s.bytes lp lq ll lc)
  where
    p8 : Bytes
    p8 = put_be 8 s.index

    q8 : Bytes
    q8 = put_be 8 s.term

    l4 : Bytes
    l4 = put_be 4 (length s.bytes % 2 ^ 32)

    c4 : Bytes
    c4 = put_be 4 (checksum ((p8 ++ q8) ++ s.bytes))

    lp : length p8 ≡ 8
    lp = length-put_be 8 s.index

    lq : length q8 ≡ 8
    lq = length-put_be 8 s.term

    ll : length l4 ≡ 4
    ll = length-put_be 4 _

    lc : length c4 ≡ 4
    lc = length-put_be 4 _
