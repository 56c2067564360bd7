-- ===== src/Resilience/Watchdog.antt =====
-- src/mycellm/resilience.py: a thread that ends the process when its event loop is stuck.
-- Times are in milliseconds and fd_pct in hundredths. The clock, the count of open descriptors and
-- the limits that the system tells are arguments. Log lines are left out.
mod Alarms
mod Tests
use mycellm.Prelude.{
  ℕ, ◌+◌, ◌-◌, ◌*◌, Option, none, some, Bool, true, false, ◌&&◌, List, [], ◌∷◌, min, max, leb, ltb,
  negb, if◌then◌else◌,
}

-- Where `_open_fd_count` returns -1 there is no count, and a limit of -1 is none.
abbrev pub Count : Type 0
Count = Option ℕ

-- The limit is positive, and not absurdly large.
unfoldable pub is_meaningful : Count → Bool
is_meaningful none = false
is_meaningful (some n) = ltb 0 n && ltb n 10000000

abbrev pub or_zero : Count → ℕ
or_zero none = 0
or_zero (some n) = n

-- The soft limit, the hard one or 0, where the system tells both.
unfoldable pub fd_limit : Option (Count × Count) → ℕ
unfolding is_meaningful
fd_limit none = 0
fd_limit (some (soft, hard)) =
    if is_meaningful soft then or_zero soft else if is_meaningful hard then or_zero hard else 0

pub record HeartbeatWatchdog : Type 0 where
  pub enabled : Bool
  pub stall_seconds : ℕ
  pub fd_pct : ℕ
  pub check_interval : ℕ
  pub last_beat : ℕ
  pub defer_until : ℕ
  pub fd_limit : ℕ
  pub thread : Bool
  pub stopped : Bool

unfoldable pub new_watchdog : Bool → ℕ → ℕ → ℕ → ℕ → Option (Count × Count) → HeartbeatWatchdog
unfolding fd_limit
new_watchdog enabled stall_seconds fd_pct check_interval now limits = record {
  enabled = enabled;
  stall_seconds = max 10000 stall_seconds;
  fd_pct = min 99 (max 50 fd_pct);
  check_interval = max 1000 check_interval;
  last_beat = now;
  defer_until = 0;
  fd_limit = fd_limit limits;
  thread = false;
  stopped = false;
}

unfoldable pub beat : ℕ → HeartbeatWatchdog → HeartbeatWatchdog
beat now w = record w { last_beat = now }

-- For a time that is not negative.
unfoldable pub defer : ℕ → ℕ → HeartbeatWatchdog → HeartbeatWatchdog
defer now seconds w = record w { defer_until = max w.defer_until (now + seconds) }

unfoldable pub start : ℕ → HeartbeatWatchdog → HeartbeatWatchdog
start now w =
    if negb w.enabled
    then w
    else if w.thread
    then w
    else record w { last_beat = now; thread = true }

unfoldable pub stop : HeartbeatWatchdog → HeartbeatWatchdog
stop w = record w { stopped = true }

pub data Reason : Type 0 where
  loop_stalled : ℕ → Reason
  too_many_fds : ℕ → Reason

-- The check of the descriptors.
unfoldable pub check_fds : Count → HeartbeatWatchdog → Option Reason
check_fds none w = none
check_fds (some fds) w =
    if ltb 0 w.fd_limit && (ltb 0 fds && ltb (w.fd_limit * w.fd_pct) (fds * 100))
    then some (too_many_fds fds)
    else none

unfoldable pub is_stalled : ℕ → HeartbeatWatchdog → Bool
is_stalled now w = leb w.defer_until now && ltb w.stall_seconds (now - w.last_beat)

unfoldable pub check_once : ℕ → Count → HeartbeatWatchdog → Option Reason
unfolding is_stalled check_fds
check_once now fds w =
    if is_stalled now w then some (loop_stalled (now - w.last_beat)) else check_fds fds w

-- What happens while the thread runs: a call from the event loop, or a pass of `_run` after a wait.
pub data Event : Type 0 where
  beats : ℕ → Event
  defers : ℕ → ℕ → Event
  wakes : ℕ → Count → Event
  stops : Event

-- The reason of a pass, or else of a later one.
unfoldable pub or_later : Option Reason → Option Reason → Option Reason
or_later none later = later
or_later (some r) later = some r

unfoldable pub is_watching : HeartbeatWatchdog → Bool
is_watching w = w.thread && negb w.stopped

-- The loop of `_run` among the other calls: why it ends the process, if it does.
unfoldable pub watch : List Event → HeartbeatWatchdog → Option Reason
unfolding beat defer stop check_once or_later is_watching
watch [] w = none
watch (beats now ∷ es) w = watch es (beat now w)
watch (defers now seconds ∷ es) w = watch es (defer now seconds w)
watch (stops ∷ es) w = watch es (stop w)
watch (wakes now fds ∷ es) w =
    let later = watch es w in if is_watching w then or_later (check_once now fds w) later else none
