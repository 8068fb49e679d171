-- ===== src/Stp/TickTimer.antt =====
-- A timer of EXP06-STP/code/06-stp/stp_timer.c: the switch has one, its hello timer. Times are ticks.
use ucas_computer_network.Common.{ℕ, ◌+◌, Bool, true, false, ◌&&◌, leb, if◌then◌else◌}

-- `stp_timer_t`, less its list node, its function and the function's argument.
pub record Timer : Type 0 where
  pub active : Bool
  pub time : ℕ
  pub timeout : ℕ

-- `time` is set when the timer starts.
unfoldable pub init_timer : ℕ → Timer
init_timer timeout = record { active = false; time = 0; timeout = timeout }

unfoldable pub start_timer : Timer → ℕ → Timer
start_timer t now = record t { active = true; time = now }

unfoldable pub stop_timer : Timer → Timer
stop_timer t = record t { active = false }

unfoldable pub check_timer : Timer → ℕ → Timer × Bool
check_timer t now =
    if t.active && leb (t.time + t.timeout) now
    then (record t { active = false }, true)
    else (t, false)
