-- ===== src/Resilience/Watchdog/Alarms.antt =====
-- src/mycellm/resilience.py: when the watchdog ends the process for a stalled loop.
use mycellm.Prelude.{
  ℕ, ◌+◌, ◌-◌, ◌≤◌, ◌<◌, ◌≡◌, ◌≢◌, ◌⊎◌, refl, ap, sym, ◌∙◌, inl, inr, Option, none, some, true,
  false, List, [], ◌∷◌, ◌++◌, Bool-cases, arith,
}
use mycellm.Resilience.Watchdog.{
  Count, HeartbeatWatchdog, beat, defer, stop, Reason, loop_stalled, check_fds, is_stalled,
  check_once, Event, beats, defers, wakes, stops, or_later, is_watching, watch,
}

-- The clock that the events read does not run backwards.
abbrev pub IsOrdered : ℕ → List Event → Type 0
IsOrdered now [] = Unit
IsOrdered now (beats t ∷ es) = (now ≤ t) × IsOrdered t es
IsOrdered now (defers t s ∷ es) = (now ≤ t) × IsOrdered t es
IsOrdered now (wakes t fds ∷ es) = (now ≤ t) × IsOrdered t es
IsOrdered now (stops ∷ es) = IsOrdered now es

-- At `time`, all beats are older than the limit, what was deferred is over, and nothing was stopped.
abbrev pub IsSilent : ℕ → ℕ → List Event → Type 0
IsSilent limit time [] = Unit
IsSilent limit time (beats t ∷ es) = (t + limit < time) × IsSilent limit time es
IsSilent limit time (defers t s ∷ es) = (t + s ≤ time) × IsSilent limit time es
IsSilent limit time (wakes t fds ∷ es) = IsSilent limit time es
IsSilent limit time (stops ∷ es) = ⊥

-- The thread wakes when the loop has been silent for longer than the limit.
pub record Alarm (w : HeartbeatWatchdog) (es : List Event) : Type 0 where
  pub before : List Event
  pub time : ℕ
  pub fds : Count
  pub after : List Event
  pub splits : es ≡ before ++ wakes time fds ∷ after
  pub overdue : w.last_beat + w.stall_seconds < time
  pub due : w.defer_until ≤ time
  pub silent : IsSilent w.stall_seconds time before

is_stalled→ :
    (now : ℕ) (w : HeartbeatWatchdog)
    → is_stalled now w ≡ true
    → (w.defer_until ≤ now) × (w.last_beat + w.stall_seconds < now)
unfolding is_stalled
is_stalled→ now w h = (ground arith, ground arith)

→is_stalled :
    (now : ℕ) (w : HeartbeatWatchdog)
    → w.defer_until ≤ now
    → w.last_beat + w.stall_seconds < now
    → is_stalled now w ≡ true
unfolding is_stalled
→is_stalled now w d h = ground arith

pass_lem :
    (t : ℕ) (fds : Count) (es : List Event) (w : HeartbeatWatchdog)
    → is_watching w ≡ true
    → watch (wakes t fds ∷ es) w ≡ or_later (check_once t fds w) (watch es w)
unfolding watch
pass_lem t fds es w h = rw h refl

no_pass_lem :
    (t : ℕ) (fds : Count) (es : List Event) (w : HeartbeatWatchdog)
    → is_watching w ≡ false
    → watch (wakes t fds ∷ es) w ≡ none
unfolding watch
no_pass_lem t fds es w h = rw h refl

check_once-stalled :
    (t : ℕ) (fds : Count) (w : HeartbeatWatchdog)
    → is_stalled t w ≡ true
    → check_once t fds w ≡ some (loop_stalled (t - w.last_beat))
unfolding check_once
check_once-stalled t fds w h = rw h refl

check_once-check_fds :
    (t : ℕ) (fds : Count) (w : HeartbeatWatchdog)
    → is_stalled t w ≡ false
    → check_once t fds w ≡ check_fds fds w
unfolding check_once
check_once-check_fds t fds w h = rw h refl

none-some : (r : Reason) → none ≢ some r
none-some r h = cc

-- A thread that was stopped ends nothing.
watch-stop : (es : List Event) (w : HeartbeatWatchdog) → w.stopped ≡ true → watch es w ≡ none
unfolding watch beat defer stop is_watching
watch-stop [] w h = refl
watch-stop (beats t ∷ es) w h = watch-stop es (beat t w) h
watch-stop (defers t s ∷ es) w h = watch-stop es (defer t s w) h
watch-stop (stops ∷ es) w h = watch-stop es (stop w) refl
watch-stop (wakes t fds ∷ es) w h = no_pass_lem t fds es w (ground arith)

-- The check of the descriptors does not blame the loop.
check_fds_blames :
    (fds : Count) (w : HeartbeatWatchdog) (age : ℕ) → check_fds fds w ≢ some (loop_stalled age)
unfolding check_fds
check_fds_blames none w age h = cc
check_fds_blames (some fds) w age h = ground arith

or_later-cases :
    (o p : Option Reason) (r : Reason) → or_later o p ≡ some r → (o ≡ some r) ⊎ (p ≡ some r)
unfolding or_later
or_later-cases none p r h = inr h
or_later-cases (some q) p r h = inl h

or_later-none : (o p : Option Reason) → or_later o p ≡ none → (o ≡ none) × (p ≡ none)
unfolding or_later
or_later-none none p h = (refl, h)
or_later-none (some q) p h = absurd (none-some q (sym h))

-- A pass that finds no stall leaves it to a later one to blame the loop.
wakes_later :
    (t age : ℕ) (fds : Count) (es : List Event) (w : HeartbeatWatchdog)
    → is_stalled t w ≡ false
    → watch (wakes t fds ∷ es) w ≡ some (loop_stalled age)
    → watch es w ≡ some (loop_stalled age)
wakes_later t age fds es w n h = elim (Bool-cases (is_watching w)) [
  | inl e ↦
      elim (or_later-cases (check_once t fds w) (watch es w) (loop_stalled age)
        (sym (pass_lem t fds es w e) ∙ h)) [
          | inl c ↦ absurd (check_fds_blames fds w age (sym (check_once-check_fds t fds w n) ∙ c))
          | inr c ↦ c
        ]
  | inr e ↦ absurd (none-some (loop_stalled age) (sym (no_pass_lem t fds es w e) ∙ h))
]

wakes-Alarm :
    (t : ℕ) (fds : Count) {es : List Event} {w : HeartbeatWatchdog}
    → Alarm w es
    → Alarm w (wakes t fds ∷ es)
wakes-Alarm t fds a = record {
  before = wakes t fds ∷ a.before;
  time = a.time;
  fds = a.fds;
  after = a.after;
  splits = ap (λ xs. wakes t fds ∷ xs) a.splits;
  overdue = a.overdue;
  due = a.due;
  silent = a.silent;
}

-- In events whose clock does not run backwards, a process that is ended for a stalled loop was silent
-- for longer than the limit when the thread woke, with no deferral left and nothing stopped.
pub watch-stalled :
    (now age : ℕ) (es : List Event) (w : HeartbeatWatchdog)
    → w.last_beat ≤ now
    → IsOrdered now es
    → watch es w ≡ some (loop_stalled age)
    → Alarm w es
unfolding watch beat defer stop
watch-stalled now age [] w l o h = cc
watch-stalled now age (beats t ∷ es) w l (le, o) h =
    let a = watch-stalled t age es (beat t w) (omega arith) o h in
    record {
      before = beats t ∷ a.before;
      time = a.time;
      fds = a.fds;
      after = a.after;
      splits = ap (λ xs. beats t ∷ xs) a.splits;
      overdue = omega (arith, a.overdue);
      due = a.due;
      silent = (a.overdue, a.silent);
    }
watch-stalled now age (defers t s ∷ es) w l (le, o) h =
    let a = watch-stalled t age es (defer t s w) (omega arith) o h in
    record {
      before = defers t s ∷ a.before;
      time = a.time;
      fds = a.fds;
      after = a.after;
      splits = ap (λ xs. defers t s ∷ xs) a.splits;
      overdue = a.overdue;
      due = omega (arith, a.due);
      silent = (omega (arith, a.due), a.silent);
    }
watch-stalled now age (stops ∷ es) w l o h =
    absurd (none-some (loop_stalled age) (sym (watch-stop es (stop w) refl) ∙ h))
watch-stalled now age (wakes t fds ∷ es) w l (le, o) h = elim (Bool-cases (is_stalled t w)) [
  | inl e ↦
      let (d, b) = is_stalled→ t w e in
      record {
        before = [];
        time = t;
        fds = fds;
        after = es;
        splits = refl;
        overdue = b;
        due = d;
        silent = tt;
      }
  | inr e ↦
      wakes-Alarm t fds (watch-stalled t age es w (omega arith) o (wakes_later t age fds es w e h))
]

unwatched-watch :
    (before after : List Event) (time : ℕ) (fds : Count) (w : HeartbeatWatchdog)
    → is_watching w ≡ true
    → w.last_beat + w.stall_seconds < time
    → w.defer_until ≤ time
    → IsSilent w.stall_seconds time before
    → watch (before ++ wakes time fds ∷ after) w ≢ none
unfolding watch beat defer stop is_watching
unwatched-watch [] after time fds w r b d q = λ h. none-some (loop_stalled (time - w.last_beat)) (
    sym
      (or_later-none (check_once time fds w) (watch after w)
        (sym (pass_lem time fds after w r) ∙ h)).0
    ∙ check_once-stalled time fds w (→is_stalled time w d b))
unwatched-watch (beats t ∷ es) after time fds w r b d (b', q) =
    unwatched-watch es after time fds (beat t w) r b' d q
unwatched-watch (defers t s ∷ es) after time fds w r b d (d', q) =
    unwatched-watch es after time fds (defer t s w) r b (ground arith) q
unwatched-watch (stops ∷ es) after time fds w r b d q = absurd q
unwatched-watch (wakes t c ∷ es) after time fds w r b d q = λ h.
    unwatched-watch es after time fds w r b d q
      (or_later-none (check_once t c w) (watch (es ++ wakes time fds ∷ after) w)
        (sym (pass_lem t c (es ++ wakes time fds ∷ after) w r) ∙ h)).1

-- A watchdog that watches ends the process where its thread wakes in a loop that has been silent for
-- longer than the limit, with no deferral left and nothing stopped.
pub silence_noticed :
    (es : List Event) (w : HeartbeatWatchdog)
    → is_watching w ≡ true
    → Alarm w es
    → watch es w ≢ none
silence_noticed es w r a =
    rw a.splits (unwatched-watch a.before a.after a.time a.fds w r a.overdue a.due a.silent)
