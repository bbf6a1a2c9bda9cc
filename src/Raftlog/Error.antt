-- ===== src/Raftlog/Error.antt =====
-- The errors of internal/raftlog as values, with their causes for messages.
use uptime_monitor.Prelude.{ℕ, ◌≡◌, refl, ◌⊎◌, inl, inr}

pub data Error : Type 0 where
  -- Of decoding.
  too_short length_mismatch crc_mismatch wrong_size : Error
  -- Of `AppendEntry` (got, want) and `Snapshot` (index, last).
  non_contiguous beyond_last : ℕ → ℕ → Error
  -- Of a call of the operating system.
  io_error : Error

pub data Result (A : Type 0) : Type 0 where
  ok : A → Result A
  err : Error → Result A

pub Result-cases :
    {A : Type 0} (x : Result A) → ((a : A) × (x ≡ ok a)) ⊎ ((e : Error) × (x ≡ err e))
Result-cases (ok a) = inl (a, refl)
Result-cases (err e) = inr (e, refl)
