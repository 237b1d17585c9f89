-- ===== src/Data/Ids.antt =====
-- Identifiers and timestamps.
use Prim.Native.Nat.{ℕ, ◌*◌}

abbrev pub Uuid : Type 0
Uuid = ℕ

-- A point of time, in microseconds.
abbrev pub Time : Type 0
Time = ℕ

-- `timedelta(seconds=n)`
abbrev pub seconds : ℕ → ℕ
seconds n = n * 1000000

-- `timedelta(minutes=n)`
abbrev pub minutes : ℕ → ℕ
minutes n = n * 60000000
