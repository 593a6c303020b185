-- ===== src/Prelude/Time.antt =====
-- Rust's `Duration` and `Instant` as numbers of nanoseconds.
use Prim.Native.Nat.{ℕ, ◌*◌, ◌-◌}

abbrev pub Duration : Type 0
Duration = ℕ

abbrev pub Instant : Type 0
Instant = ℕ

abbrev pub from_millis : ℕ → Duration
from_millis n = n * 1_000_000

abbrev pub from_secs : ℕ → Duration
from_secs n = n * 1_000_000_000

-- `at.elapsed()` read at the instant `now`; the standard library saturates at zero.
abbrev pub elapsed : Instant → Instant → Duration
elapsed now at = now - at
