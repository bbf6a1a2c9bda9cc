-- ===== src/Raftlog/Bytes.antt =====
-- What internal/raftlog uses of Go's encoding/binary and hash/crc32. A byte string is a list of
-- numbers below 256.
use native.Mathlib.Nat.{pow-suc}
use uptime_monitor.Prelude.{
  ℕ, zero, suc, ◌+◌, ◌-◌, ◌*◌, ◌/◌, ◌%◌, ◌^◌, ◌<◌, ◌≡◌, refl, bit_xor, List, [], ◌∷◌, ◌++◌, ◌==◌,
  if◌then◌else◌, length, take, drop, length-append, arith,
}

abbrev pub Bytes : Type 0
Bytes = List ℕ

-- `b[lo:hi]`.
abbrev pub slice : ℕ → ℕ → Bytes → Bytes
slice lo hi b = take (hi - lo) (drop lo b)

-- `BigEndian.PutUint32` and `PutUint64`, by the width in bytes.
unfoldable pub put_be : ℕ → ℕ → Bytes
put_be zero n = []
put_be (suc w) n = put_be w (n / 256) ++ (n % 256) ∷ []

get_from : ℕ → Bytes → ℕ
get_from acc [] = acc
get_from acc (b ∷ bs) = get_from (acc * 256 + b) bs

-- `BigEndian.Uint32` and `Uint64`, of 4 or 8 bytes.
unfoldable pub get_be : Bytes → ℕ
unfolding get_from
get_be = get_from 0

-- hash/crc32 with the IEEE polynomial: one bit of an entry of the table, then the entry, one byte of
-- input, and `crc32.Checksum`. A `crc32.New` hash that is fed piece by piece is the checksum of the
-- pieces joined.
crc_round : ℕ → ℕ → ℕ
crc_round zero c = c
crc_round (suc k) c = crc_round k (if c % 2 == 1 then bit_xor (c / 2) 0xEDB88320 else c / 2)

crc_update : ℕ → Bytes → ℕ
unfolding crc_round
crc_update c [] = c
crc_update c (b ∷ bs) = crc_update (bit_xor (crc_round 8 (bit_xor (c % 256) b)) (c / 256)) bs

unfoldable pub checksum : Bytes → ℕ
unfolding crc_update
checksum b = bit_xor (crc_update 0xFFFFFFFF b) 0xFFFFFFFF % 2 ^ 32

-- The check value of CRC-32, of the text "123456789".
checksum_test :
    checksum (0x31 ∷ 0x32 ∷ 0x33 ∷ 0x34 ∷ 0x35 ∷ 0x36 ∷ 0x37 ∷ 0x38 ∷ 0x39 ∷ []) ≡ 0xCBF43926
unfolding checksum
checksum_test = refl

pub checksum_bound : (b : Bytes) → checksum b < 2 ^ 32
unfolding checksum
checksum_bound b = omega arith

pub length-put_be : (w n : ℕ) → length (put_be w n) ≡ w
unfolding put_be
length-put_be zero n = refl
length-put_be (suc w) n =
    omega (arith, length-put_be w (n / 256), length-append (put_be w (n / 256)) ((n % 256) ∷ []))

get_from-append :
    (acc : ℕ) (bs : Bytes) (b : ℕ) → get_from acc (bs ++ b ∷ []) ≡ get_from acc bs * 256 + b
unfolding get_from
get_from-append acc [] b = refl
get_from-append acc (x ∷ xs) b = get_from-append (acc * 256 + x) xs b

-- Reading back a number that fits its width.
pub get-put_be : (w n : ℕ) → n < 256 ^ w → get_be (put_be w n) ≡ n
unfolding get_be put_be
get-put_be zero n h = omega arith
get-put_be (suc w) n h =
    rw (get_from-append 0 (put_be w (n / 256)) (n % 256))
      (omega (arith, get-put_be w (n / 256) (shrink w n h)))
  where
    shrink : (w n : ℕ) → n < 256 ^ suc w → n / 256 < 256 ^ w
    shrink w n h = omega (arith, pow-suc 256 w)
