-- ===== src/Raftlog/Record/Reading.antt =====
-- internal/raftlog/log.go: what `recover` reads at the start of a record, whole or torn, and the
-- shape of a file of whole records.
use uptime_monitor.Prelude.{
  ℕ, ◌+◌, ◌-◌, ◌^◌, ◌%◌, ◌≤◌, ◌<◌, ◌≡◌, refl, sym, ap, ◌∙◌, none, some, [], ◌++◌, inl, inr,
  Bool-cases, ltb, ltb→lt, ltb→ge, lt→ltb, drop-append_past, take-append_past, length, take, drop,
  length-append, length-take, take-append_length, drop-append_length, append_assoc, arith,
}
use uptime_monitor.Raftlog.Bytes.{
  Bytes, slice, put_be, get_be, checksum, checksum_bound, length-put_be, get-put_be,
}
use uptime_monitor.Raftlog.Error.{ok}
use uptime_monitor.Raftlog.Entry.{Entry, Fits, encode, encoded_len, decode_entry}
use uptime_monitor.Raftlog.Entry.Codec.{length-encode, decode-encode}
use uptime_monitor.Raftlog.Record.{record_of, read_rest, read_record}

pub length-record_of : (e : Entry) → length (record_of e) ≡ 8 + encoded_len e
unfolding record_of
length-record_of e = omega (
  arith,
  length-encode e,
  length-append (put_be 4 (length (encode e) % 2 ^ 32))
      (put_be 4 (checksum (encode e)) ++ encode e),
  length-append (put_be 4 (checksum (encode e))) (encode e),
  length-put_be 4 (length (encode e) % 2 ^ 32),
  length-put_be 4 (checksum (encode e)),
)

-- A header as `record_of` writes it, before any bytes.
module _ (a b rest : Bytes) (la : length a ≡ 4) (lb : length b ≡ 4) where
  header_length : slice 0 4 (a ++ (b ++ rest)) ≡ a
  header_length = take-append_length a _ 4 (sym la)

  header_crc : slice 4 8 (a ++ (b ++ rest)) ≡ b
  header_crc = ap (take 4) (drop-append_length a _ 4 (sym la)) ∙ take-append_length b _ 4 (sym lb)

  header_rest : drop 8 (a ++ (b ++ rest)) ≡ rest
  header_rest = drop-append_past a _ 8 4 la (omega arith) ∙ drop-append_length b rest 4 (sym lb)

-- The payload's length, read from the header of a record of which at least four bytes are there.
read_length :
    (e : Entry) (rest : Bytes)
    → Fits e
    → get_be (slice 0 4 (put_be 4 (length (encode e) % 2 ^ 32) ++ rest)) ≡ length (encode e)
read_length e rest h =
    ap get_be
      (take-append_length (put_be 4 (length (encode e) % 2 ^ 32)) rest 4 (sym (length-put_be 4 _)))
    ∙ get-put_be 4 (length (encode e) % 2 ^ 32) (omega arith)
    ∙ unfold encoded_len in omega (arith, length-encode e, h.bytes_fit)

read_rest_good :
    (rest p : Bytes) (e : Entry) (n off size : ℕ)
    → get_be (slice 0 4 rest) ≡ n
    → get_be (slice 4 8 rest) ≡ checksum p
    → take n (drop 8 rest) ≡ p
    → decode_entry p ≡ ok e
    → off + 8 + n ≤ size
    → read_rest rest off size ≡ some (e, off + 8 + n)
unfolding read_rest
read_rest_good rest p e n off size hn hc hp hd fits = rw (hn, hp, hc, hd) (ground arith)

read_rest-record_of :
    (e : Entry) (post : Bytes) (off size : ℕ)
    → Fits e
    → off + length (record_of e) ≤ size
    → read_rest (record_of e ++ post) off size ≡ some (e, off + length (record_of e))
read_rest-record_of e post off size h fits =
    rw regroup (core ∙ ap (λ k. some (e, k)) (omega (arith, length-record_of e, length-encode e)))
  where
    l4 : Bytes
    l4 = put_be 4 (length (encode e) % 2 ^ 32)

    c4 : Bytes
    c4 = put_be 4 (checksum (encode e))

    la : length l4 ≡ 4
    la = length-put_be 4 _

    lb : length c4 ≡ 4
    lb = length-put_be 4 _

    regroup : record_of e ++ post ≡ l4 ++ (c4 ++ (encode e ++ post))
    regroup =
        unfold record_of in
        append_assoc l4 (c4 ++ encode e) post ∙ ap (λ x. l4 ++ x) (append_assoc c4 (encode e) post)

    core :
        read_rest (l4 ++ (c4 ++ (encode e ++ post))) off size
        ≡ some (e, off + 8 + length (encode e))
    core =
        read_rest_good _ (encode e) e (length (encode e)) off size (read_length e _ h)
          (ap get_be (header_crc l4 c4 (encode e ++ post) la lb)
            ∙ get-put_be 4 (checksum (encode e)) (omega (arith, checksum_bound (encode e))))
          (ap (take (length (encode e))) (header_rest l4 c4 (encode e ++ post) la lb)
            ∙ take-append_length (encode e) post _ refl)
          (decode-encode e h) (omega (arith, length-record_of e, length-encode e))

-- A whole record is read back, wherever it stands in a file.
pub read-record_of :
    (e : Entry) (pre post : Bytes)
    → Fits e
    → read_record (pre ++ (record_of e ++ post)) (length pre)
      ≡ some (e, length pre + length (record_of e))
unfolding read_record
read-record_of e pre post h = rw (drop-append_length pre (record_of e ++ post) (length pre) refl) (
    read_rest-record_of e post (length pre) _ h
      (omega (arith, length-append pre (record_of e ++ post), length-append (record_of e) post)))

-- Less than a header is left, or less than the payload that the header announces.
read_rest_short : (rest : Bytes) (off size : ℕ) → size < off + 8 → read_rest rest off size ≡ none
unfolding read_rest
read_rest_short rest off size h = rw (lt→ltb _ _ h)

read_rest_torn :
    (rest : Bytes) (n off size : ℕ)
    → get_be (slice 0 4 rest) ≡ n
    → size < off + 8 + n
    → read_rest rest off size ≡ none
unfolding read_rest
read_rest_torn rest n off size hn h = rw hn (ground arith)

-- The end of a file is one, too.
pub read_end : (pre : Bytes) → read_record (pre ++ []) (length pre) ≡ none
unfolding read_record
read_end pre = read_rest_short _ _ _ (omega (arith, length-append pre []))

-- The first bytes of a record, but not all of them, are a torn tail: the loop breaks off there.
pub read_torn :
    (e : Entry) (pre : Bytes) (k : ℕ)
    → Fits e
    → k < length (record_of e)
    → read_record (pre ++ take k (record_of e)) (length pre) ≡ none
unfolding read_record
read_torn e pre k h short =
    rw (drop-append_length pre (take k (record_of e)) (length pre) refl)
      elim (Bool-cases (ltb k 8)) [
        | inl few ↦ read_rest_short _ _ _ (omega (arith, ltb→lt k 8 few, size))
        | inr many ↦
            read_rest_torn _ (length (encode e)) _ _
              (ap (λ x. get_be (slice 0 4 x)) (header (omega (arith, ltb→ge k 8 many)))
                ∙ read_length e (take (k - 4) (put_be 4 (checksum (encode e)) ++ encode e)) h)
              (omega (arith, size, length-record_of e, length-encode e))
      ]
  where
    l4 : Bytes
    l4 = put_be 4 (length (encode e) % 2 ^ 32)

    size : length (pre ++ take k (record_of e)) ≡ length pre + k
    size = omega (arith, length-append pre (take k (record_of e)), length-take k (record_of e))

    header :
        4 ≤ k
        → take k (record_of e) ≡ l4 ++ take (k - 4) (put_be 4 (checksum (encode e)) ++ encode e)
    header few = unfold record_of in take-append_past l4 _ k 4 (length-put_be 4 _) few
