-- ===== src/Raftlog/Entry/Codec.antt =====
-- internal/raftlog/entry.go: decoding undoes encoding.
use uptime_monitor.Prelude.{
  ℕ, ◌+◌, ◌^◌, ◌%◌, ◌≡◌, ap, ◌∷◌, ◌++◌, length, drop, take, length-append, take-append_length,
  drop-append_length, drop-append_past, get_or, get_or-append_past, ◌∙◌, sym, arith,
}
use uptime_monitor.Raftlog.Bytes.{Bytes, slice, put_be, get_be, length-put_be, get-put_be}
use uptime_monitor.Raftlog.Error.{ok}
use uptime_monitor.Raftlog.Entry.{Entry, Fits, encode, decode_entry, encoded_len}

-- The fields of an encoded entry, by position: two of 8 bytes, one byte, one of 4 bytes, the rest.
module _ (a b d rest : Bytes) (t : ℕ) (la : length a ≡ 8) (lb : length b ≡ 8)
    (ld : length d ≡ 4) where
  abbrev layout : Bytes
  layout = a ++ (b ++ (t ∷ (d ++ rest)))

  drop_8 : drop 8 layout ≡ b ++ (t ∷ (d ++ rest))
  drop_8 = drop-append_past a _ 8 8 la (omega arith)

  drop_17 : drop 17 layout ≡ d ++ rest
  drop_17 = drop-append_past a _ 17 8 la (omega arith) ∙ drop-append_past b _ 9 8 lb (omega arith)

  layout_first : slice 0 8 layout ≡ a
  layout_first = take-append_length a _ 8 (sym la)

  layout_second : slice 8 16 layout ≡ b
  layout_second = ap (take 8) drop_8 ∙ take-append_length b _ 8 (sym lb)

  layout_byte : get_or layout 16 0 ≡ t
  layout_byte =
      get_or-append_past a _ 16 8 0 la (omega arith) ∙ get_or-append_past b _ 8 8 0 lb (omega arith)

  layout_length_field : slice 17 21 layout ≡ d
  layout_length_field = ap (take 4) drop_17 ∙ take-append_length d rest 4 (sym ld)

  layout_rest : drop 21 layout ≡ rest
  layout_rest =
      drop-append_past a _ 21 8 la (omega arith)
      ∙ (drop-append_past b _ 13 8 lb (omega arith) ∙ drop-append_length d rest 4 (sym ld))

  length-layout : length layout ≡ 21 + length rest
  length-layout = omega (
    arith,
    length-append a (b ++ (t ∷ (d ++ rest))),
    length-append b (t ∷ (d ++ rest)),
    length-append d rest,
  )

-- `encode` writes as many bytes as `encodedLen` says.
pub length-encode : (e : Entry) → length (encode e) ≡ encoded_len e
unfolding encode encoded_len
length-encode e =
    length-layout (put_be 8 e.index) (put_be 8 e.term) (put_be 4 (length e.bytes % 2 ^ 32)) e.bytes
      (e.typ % 256) (length-put_be 8 e.index) (length-put_be 8 e.term) (length-put_be 4 _)

decode_fields :
    (b : Bytes) (e : Entry)
    → length b ≡ 21 + length e.bytes
    → get_be (slice 17 21 b) ≡ length e.bytes
    → get_be (slice 0 8 b) ≡ e.index
    → get_be (slice 8 16 b) ≡ e.term
    → get_or b 16 0 ≡ e.typ
    → drop 21 b ≡ e.bytes
    → decode_entry b ≡ ok e
unfolding decode_entry
decode_fields b e hl hd hi ht hy hb = rw (hl, hd, hi, ht, hy, hb) (ground arith)

-- An entry whose values are in range is read back whole from its encoding.
pub decode-encode : (e : Entry) → Fits e → decode_entry (encode e) ≡ ok e
unfolding encode
decode-encode e h =
    decode_fields (encode e) e (length-layout p8 q8 d4 e.bytes ty lp lq ld)
      (ap get_be (layout_length_field p8 q8 d4 e.bytes ty lp lq ld)
        ∙ get-put_be 4 (length e.bytes % 2 ^ 32) (omega arith)
        ∙ omega (arith, h.bytes_fit))
      (ap get_be (layout_first p8 q8 d4 e.bytes ty lp lq ld)
        ∙ get-put_be 8 e.index (omega (arith, h.index_fits)))
      (ap get_be (layout_second p8 q8 d4 e.bytes ty lp lq ld)
        ∙ get-put_be 8 e.term (omega (arith, h.term_fits)))
      (layout_byte p8 q8 d4 e.bytes ty lp lq ld ∙ omega (arith, h.typ_fits))
      (layout_rest p8 q8 d4 e.bytes ty lp lq ld)
  where
    p8 : Bytes
    p8 = put_be 8 e.index

    q8 : Bytes
    q8 = put_be 8 e.term

    d4 : Bytes
    d4 = put_be 4 (length e.bytes % 2 ^ 32)

    ty : ℕ
    ty = e.typ % 256

    lp : length p8 ≡ 8
    lp = length-put_be 8 e.index

    lq : length q8 ≡ 8
    lq = length-put_be 8 e.term

    ld : length d4 ≡ 4
    ld = length-put_be 4 _
