-- ===== src/Raftlog/HardState/Laws.antt =====
-- internal/raftlog/state.go: what is saved is loaded.
use uptime_monitor.Prelude.{
  ℕ, zero, suc, ◌^◌, ◌<◌, ◌≡◌, ◌≢◌, [], append-nil, refl, sym, ap, ◌∙◌, Option, some, ◌++◌, ◌⊎◌,
  inl, inr, length, take, drop, length-append, take-append_length, drop-append_length, append_assoc,
  arith,
}
use uptime_monitor.Raftlog.Bytes.{
  Bytes, slice, put_be, get_be, checksum, checksum_bound, length-put_be, get-put_be,
}
use uptime_monitor.Raftlog.Error.{ok}
use uptime_monitor.Raftlog.Io.{Outcome, done, failed}
use uptime_monitor.Raftlog.HardState.{HardState, hard_state_bytes, save_hard_state, load_hard_state}

module _ (a b c : Bytes) (la : length a ≡ 8) (lb : length b ≡ 8) (lc : length c ≡ 4) where
  abbrev image : Bytes
  image = (a ++ b) ++ c

  length-ab : length (a ++ b) ≡ 16
  length-ab = omega (arith, length-append a b)

  image_first : slice 0 8 image ≡ a
  image_first = ap (take 8) (append_assoc a b c) ∙ take-append_length a _ 8 (sym la)

  image_second : slice 8 16 image ≡ b
  image_second =
      ap (λ x. take 8 (drop 8 x)) (append_assoc a b c)
      ∙ (ap (take 8) (drop-append_length a _ 8 (sym la)) ∙ take-append_length b _ 8 (sym lb))

  image_signed : slice 0 16 image ≡ a ++ b
  image_signed = take-append_length (a ++ b) _ 16 (sym length-ab)

  image_crc : slice 16 20 image ≡ c
  image_crc =
      ap (take 4) (drop-append_length (a ++ b) _ 16 (sym length-ab))
      ∙ (ap (take 4) (sym (append-nil c)) ∙ take-append_length c [] 4 (sym lc))

  length-image : length image ≡ 20
  length-image = omega (arith, length-ab, length-append (a ++ b) c)

load_fields :
    (b : Bytes) (hs : HardState) (crc : ℕ)
    → length b ≡ 20
    → checksum (slice 0 16 b) ≡ crc
    → get_be (slice 16 20 b) ≡ crc
    → get_be (slice 0 8 b) ≡ hs.term
    → get_be (slice 8 16 b) ≡ hs.voted_for
    → load_hard_state (some b) ≡ ok hs
unfolding load_hard_state
load_fields b hs crc hl hc hr ht hv = ground arith

pub load-hard_state_bytes :
    (hs : HardState)
    → hs.term < 2 ^ 64
    → hs.voted_for < 2 ^ 64
    → load_hard_state (some (hard_state_bytes hs)) ≡ ok hs
unfolding hard_state_bytes
load-hard_state_bytes hs ht hv =
    load_fields (hard_state_bytes hs) hs (checksum (p8 ++ q8)) (length-image p8 q8 c4 lp lq lc)
      (ap checksum (image_signed p8 q8 c4 lp lq lc))
      (ap get_be (image_crc p8 q8 c4 lp lq lc)
        ∙ get-put_be 4 _ (omega (arith, checksum_bound (p8 ++ q8))))
      (ap get_be (image_first p8 q8 c4 lp lq lc) ∙ get-put_be 8 hs.term (omega arith))
      (ap get_be (image_second p8 q8 c4 lp lq lc) ∙ get-put_be 8 hs.voted_for (omega arith))
  where
    p8 : Bytes
    p8 = put_be 8 hs.term

    q8 : Bytes
    q8 = put_be 8 hs.voted_for

    c4 : Bytes
    c4 = put_be 4 (checksum (p8 ++ q8))

    lp : length p8 ≡ 8
    lp = length-put_be 8 hs.term

    lq : length q8 ≡ 8
    lq = length-put_be 8 hs.voted_for

    lc : length c4 ≡ 4
    lc = length-put_be 4 _

-- Saving is atomic: whether and where it fails, what is loaded afterwards is the state that was to be
-- saved, or what would have been loaded before; and when it reports no error, it is the former.
pub load-save :
    (o : Outcome) (hs : HardState) (file : Option Bytes)
    → hs.term < 2 ^ 64
    → hs.voted_for < 2 ^ 64
    → (load_hard_state (save_hard_state o hs file).0 ≡ ok hs)
      ⊎ (load_hard_state (save_hard_state o hs file).0 ≡ load_hard_state file)
        × ((save_hard_state o hs file).1 ≢ ok tt)
unfolding save_hard_state
load-save done hs file ht hv = inl (load-hard_state_bytes hs ht hv)
load-save (failed zero) hs file ht hv = inr (refl, λ e. cc)
load-save (failed (suc n)) hs file ht hv = inl (load-hard_state_bytes hs ht hv)
