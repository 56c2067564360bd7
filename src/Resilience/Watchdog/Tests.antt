-- ===== src/Resilience/Watchdog/Tests.antt =====
-- Runs of the watchdog of src/mycellm/resilience.py, and its theorems at these inputs.
use mycellm.Prelude.{◌≡◌, ◌≢◌, refl, none, some, true, List, [], ◌∷◌, arith}
use mycellm.Resilience.Watchdog.{
  HeartbeatWatchdog, new_watchdog, start, loop_stalled, too_many_fds, Event, beats, defers, wakes,
  stops, is_watching, watch,
}
use mycellm.Resilience.Watchdog.Alarms.{Alarm, watch-stalled, silence_noticed}

-- A limit of 90 seconds, and 85 of a hundred of 256 descriptors.
unfoldable armed : HeartbeatWatchdog
unfolding new_watchdog start
armed = start 1000 (new_watchdog true 90000 85 5000 0 (some (some 256, none)))

-- A beat, a deferral of three minutes, and a wake after it.
abbrev stuck : List Event
stuck =
    beats 6000
    ∷ wakes 50000 (some 40)
    ∷ defers 60000 180000
    ∷ wakes 120000 none
    ∷ wakes 245000 (some 40)
    ∷ []

stuck_run : watch stuck armed ≡ some (loop_stalled 239000)
unfolding armed watch
stuck_run = refl

crowded_run :
    watch (wakes 6000 (some 217) ∷ wakes 11000 (some 218) ∷ []) armed ≡ some (too_many_fds 218)
unfolding armed watch
crowded_run = refl

stopped_run : watch (stops ∷ wakes 500000 (some 40) ∷ []) armed ≡ none
unfolding armed watch
stopped_run = refl

armed_watching : is_watching armed ≡ true
unfolding armed is_watching
armed_watching = refl

watch-stalled_example : Alarm armed stuck
unfolding armed
watch-stalled_example =
    watch-stalled 1000 239000 stuck armed (omega arith)
      (omega arith, (omega arith, (omega arith, (omega arith, (omega arith, tt))))) stuck_run

silence_noticed_example : watch stuck armed ≢ none
silence_noticed_example = silence_noticed stuck armed armed_watching watch-stalled_example
