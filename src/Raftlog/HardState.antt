-- ===== src/Raftlog/HardState.antt =====
-- internal/raftlog/state.go: the term and the vote on disk.
pub mod Laws
use uptime_monitor.Prelude.{
  ℕ, zero, suc, ◌≡◌, Option, none, some, ◌++◌, ◌==◌, not, if◌then◌else◌, length, take,
}
use uptime_monitor.Raftlog.Bytes.{Bytes, slice, put_be, get_be, checksum}
use uptime_monitor.Raftlog.Error.{Result, ok, err, wrong_size, crc_mismatch, io_error}
use uptime_monitor.Raftlog.Io.{Outcome, done, failed}

pub record HardState : Type 0 where
  pub term : ℕ  -- uint64
  pub voted_for : ℕ  -- uint64, 0 for no vote

abbrev pub hard_state_len : ℕ
hard_state_len = 20

unfoldable pub hard_state_bytes : HardState → Bytes
hard_state_bytes hs =
    (put_be 8 hs.term ++ put_be 8 hs.voted_for)
    ++ put_be 4 (checksum (put_be 8 hs.term ++ put_be 8 hs.voted_for))

-- The file after `SaveHardState`, and its result. `failed 0` is an error before the rename, any other
-- one an error of the sync of the directory, after it.
unfoldable pub save_hard_state : Outcome → HardState → Option Bytes → Option Bytes × Result Unit
save_hard_state done hs file = (some (hard_state_bytes hs), ok tt)
save_hard_state (failed zero) hs file = (file, err io_error)
save_hard_state (failed (suc _)) hs file = (some (hard_state_bytes hs), err io_error)

-- `LoadHardState`, of a file that can be read.
unfoldable pub load_hard_state : Option Bytes → Result HardState
load_hard_state none = ok (record { term = 0; voted_for = 0 })
load_hard_state (some b) =
    if not (length b == hard_state_len)
    then err wrong_size
    else if not (checksum (slice 0 16 b) == get_be (slice 16 20 b))
    then err crc_mismatch
    else ok (record { term = get_be (slice 0 8 b); voted_for = get_be (slice 8 16 b) })
