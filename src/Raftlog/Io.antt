-- ===== src/Raftlog/Io.antt =====
-- How calls of the operating system end: the environment's choice, for each operation of
-- internal/raftlog that writes.
use uptime_monitor.Prelude.{ℕ}

-- `failed n`: the operation's writes go wrong at a stage that each operation says of itself.
pub data Outcome : Type 0 where
  done : Outcome
  failed : ℕ → Outcome
