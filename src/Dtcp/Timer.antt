-- ===== src/Dtcp/Timer.antt =====
-- `Timer` of dtcp/src/lib.rs. An instant is a count of nanoseconds, and what `Instant::now()` returns is
-- an argument. The clock is monotonic, so the difference of two instants does not go below zero.
use efcp.Prelude.{ℕ, ◌-◌, Bool, true, false, ltb, if◌then◌else◌}

pub record Timer : Type 0 where
  pub enable : Bool
  pub start : ℕ
  pub interval : ℕ

unfoldable pub new : ℕ → ℕ → Timer
new now interval = record { enable = false; start = now; interval = interval }

unfoldable pub restart : ℕ → Timer → Timer
restart now t = record t { start = now; enable = true }

-- Whether the timer was running and has expired, and the timer stopped.
unfoldable pub stop : ℕ → Timer → Bool × Timer
stop now t =
    if t.enable then (ltb t.interval (now - t.start), record t { enable = false }) else (false, t)
