-- ===== src/Resilience/MemoryWatch.antt =====
-- src/mycellm/memory_watch.py: what each poll of the kernel's memory pressure gives back.
-- The level that is read, and whether the inference manager raises, are arguments.
mod Escalation
use mycellm.Prelude.{
  ℕ, ◌+◌, Option, none, some, Bool, true, false, ◌&&◌, List, [], ◌∷◌, leb, negb, if◌then◌else◌,
}

abbrev pub warn : ℕ
warn = 2

abbrev pub critical : ℕ
critical = 4

pub record MemoryPressureWatcher : Type 0 where
  pub evict : Bool
  pub prev_critical : Bool
  pub events : ℕ

abbrev pub new_watcher : Bool → MemoryPressureWatcher
new_watcher evict = record { evict = evict; prev_critical = false; events = 0 }

-- What a poll asks for.
pub data Relief : Type 0 where
  nothing clear_cache : Relief
  -- `evict_idle_models(..., keep_most_recent)`, after the cache is cleared
  evict_idle : Bool → Relief

-- The level that a poll reads, and whether the eviction that it asks for raises.
pub record Poll : Type 0 where
  pub level : ℕ
  pub raises : Bool

unfoldable pub asks : ℕ → MemoryPressureWatcher → Relief
asks level m =
    if leb warn level
    then if leb critical level && m.evict then evict_idle (negb m.prev_critical) else clear_cache
    else nothing

-- `check_once` and, where it raises, the handler in `run`.
unfoldable pub poll_once : Poll → MemoryPressureWatcher → MemoryPressureWatcher
poll_once p m =
    if leb warn p.level
    then if leb critical p.level && m.evict
      then if p.raises
        then record m { events = m.events + 1 }
        else record m { prev_critical = true; events = m.events + 1 }
      else record m { prev_critical = false; events = m.events + 1 }
    else record m { prev_critical = false }

-- The reliefs that the polls of `run` ask for, in their order.
unfoldable pub run_polls : List Poll → MemoryPressureWatcher → List Relief
unfolding asks poll_once
run_polls [] m = []
run_polls (p ∷ ps) m = asks p.level m ∷ run_polls ps (poll_once p m)
