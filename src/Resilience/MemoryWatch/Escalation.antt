-- ===== src/Resilience/MemoryWatch/Escalation.antt =====
-- src/mycellm/memory_watch.py: when the model used last may go.
use mycellm.Prelude.{
  ◌≡◌, refl, sym, ◌∙◌, inl, inr, Bool, true, false, ◌&&◌, List, [], ◌∷◌, leb, Bool-cases, arith,
}
use mycellm.Resilience.MemoryWatch.{
  warn, critical, MemoryPressureWatcher, Relief, nothing, clear_cache, evict_idle, Poll, asks,
  poll_once, run_polls,
}

-- An eviction that does not spare the model used last follows another eviction; `after` is whether one
-- came just before.
abbrev pub IsGradual : Bool → List Relief → Type 0
IsGradual after [] = Unit
IsGradual after (nothing ∷ rs) = IsGradual false rs
IsGradual after (clear_cache ∷ rs) = IsGradual false rs
IsGradual after (evict_idle keep ∷ rs) = (keep ≡ false → after ≡ true) × IsGradual true rs

true_from : {b : Bool} → false ≡ true → b ≡ true
true_from h = cc

-- A poll that asks for no eviction forgets the one before.
prev_critical-poll_once :
    (p : Poll) (m : MemoryPressureWatcher)
    → leb warn p.level && (leb critical p.level && m.evict) ≡ false
    → (poll_once p m).prev_critical ≡ false
unfolding poll_once
prev_critical-poll_once p m h = ground arith

-- The first relief, before reliefs that are gradual whatever the poll leaves behind.
asks-IsGradual :
    (p : Poll) (m : MemoryPressureWatcher) (rs : List Relief) (after : Bool)
    → (m.prev_critical ≡ true → after ≡ true)
    → ((b : Bool) → ((poll_once p m).prev_critical ≡ true → b ≡ true) → IsGradual b rs)
    → IsGradual after (asks p.level m ∷ rs)
unfolding asks
asks-IsGradual p m rs after h later = elim (Bool-cases (leb warn p.level)) [
  | inl w ↦ elim (Bool-cases (leb critical p.level && m.evict)) [
    | inl c ↦ rw w (rw c (λ k. h (ground arith), later true (λ k. refl)))
    | inr c ↦
        rw w (rw c (later false (λ k. true_from (sym (prev_critical-poll_once p m (rw w c)) ∙ k))))
  ]
  | inr w ↦ rw w (later false (λ k. true_from (sym (prev_critical-poll_once p m (rw w refl)) ∙ k)))
]

-- The polls of the watcher are gradual.
run_polls-IsGradual :
    (ps : List Poll) (m : MemoryPressureWatcher) (after : Bool)
    → (m.prev_critical ≡ true → after ≡ true)
    → IsGradual after (run_polls ps m)
unfolding run_polls
run_polls-IsGradual [] m after h = tt
run_polls-IsGradual (p ∷ ps) m after h =
    asks-IsGradual p m (run_polls ps (poll_once p m)) after h
      (run_polls-IsGradual ps (poll_once p m))
