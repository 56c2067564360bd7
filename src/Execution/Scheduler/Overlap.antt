-- ===== src/Execution/Scheduler/Overlap.antt =====
-- src/mycellm/execution/scheduler.py: ticks that overlap, as those of the polling loop and of
-- `_nudge` in src/mycellm/api/jobs.py do. A tick is at one of the awaits of its loop; what it does
-- from there to its next await is one step, and other ticks move in between.
use mycellm.Prelude.{
  ℕ, zero, suc, ◌+◌, ◌≤◌, ◌<◌, ◌≡◌, ◌⊎◌, inl, inr, refl, String, Bool, true, false, List, [], ◌∷◌,
  filter, length, sum_of, All, length-filter-le, length-append, arith, leb, negb, ◌==◌,
  if◌then◌else◌, Bool-cases,
}
use mycellm.Execution.Models.{Target}
use mycellm.Execution.Queue.Row.{QueuedJob, WaitingReason, Rows}
use mycellm.Execution.Queue.{claim}
use mycellm.Execution.Queue.Tiers.{Sizes, waiting_reason_for}
use mycellm.Execution.Scheduler.{
  Node, Scheduler, Task, is_full, eligible, targets_for, targets_of, spawn, is_no_reason, note,
}
use mycellm.Execution.Scheduler.Running.{task_ends}

-- Where a tick waits: for a note or a claim to be written, for a claim's answer, or not at all.
pub data Stage : Type 0 where
  noting : QueuedJob → WaitingReason → List QueuedJob → Stage
  claiming : QueuedJob → List Target → List QueuedJob → Stage
  answered : Bool → QueuedJob → List Target → List QueuedJob → Stage
  finished : Stage

module _ (sizes : Sizes) (node : Node) where
  -- From one await of the loop to the next.
  unfoldable pub next_stage : List QueuedJob → Scheduler → Stage
  unfolding is_full targets_for waiting_reason_for targets_of
  next_stage [] s = finished
  next_stage (job ∷ jobs) s =
      let targets = targets_for sizes (targets_of node) job in
      let wait = waiting_reason_for job targets (targets_of node) in
      if is_full s
      then finished
      else if is_no_reason wait
      then claiming job targets jobs
      else noting job wait jobs

  -- A tick that has read its pending jobs.
  unfoldable pub begin_tick : List QueuedJob → Scheduler → Stage
  unfolding next_stage eligible
  begin_tick [] s = finished
  begin_tick (head ∷ jobs) s =
      let (ok, reason) = eligible node s in
      if ok then next_stage (head ∷ jobs) s else noting head reason []

  -- A step of a tick.
  unfoldable pub resume : ℕ → Stage → Scheduler → Scheduler × Stage
  unfolding next_stage claim spawn
  resume now (noting job reason jobs) s =
      let s' = note job.job_id now reason s in (s', next_stage jobs s')
  resume now (claiming job targets jobs) s =
      let (rows, won) = claim job.job_id now s.rows in
      (record s { rows = rows }, answered won job targets jobs)
  resume now (answered true job targets jobs) s =
      let s' = spawn job targets s in (s', next_stage jobs s')
  resume now (answered false job targets jobs) s = (s, next_stage jobs s)
  resume now finished s = (s, finished)

  -- The i-th of the ticks takes a step, begins, a task ends, or others change the queue.
  pub data Event : Type 0 where
    resumes : ℕ → ℕ → Event
    begins : ℕ → List QueuedJob → Event
    ends : String → Event
    changes : Rows → Event

  pub record World : Type 0 where
    pub scheduler : Scheduler
    pub ticks : List Stage

  unfoldable pub resume_at : ℕ → ℕ → Scheduler → List Stage → Scheduler × List Stage
  unfolding resume
  resume_at i now s [] = (s, [])
  resume_at zero now s (g ∷ gs) = let (s', g') = resume now g s in (s', g' ∷ gs)
  resume_at (suc i) now s (g ∷ gs) = let (s', gs') = resume_at i now s gs in (s', g ∷ gs')

  -- A tick that is under way is not begun again.
  unfoldable pub begin_at : ℕ → List QueuedJob → Scheduler → List Stage → List Stage
  unfolding begin_tick
  begin_at i jobs s [] = []
  begin_at zero jobs s (finished ∷ gs) = begin_tick jobs s ∷ gs
  begin_at zero jobs s (g ∷ gs) = g ∷ gs
  begin_at (suc i) jobs s (g ∷ gs) = g ∷ begin_at i jobs s gs

  unfoldable pub advance : Event → World → World
  unfolding resume_at begin_at task_ends
  advance (resumes i now) w =
      let (s, gs) = resume_at i now w.scheduler w.ticks in record { scheduler = s; ticks = gs }
  advance (begins i jobs) w = record w { ticks = begin_at i jobs w.scheduler w.ticks }
  advance (ends id) w = record w { scheduler = task_ends id w.scheduler }
  advance (changes rows) w = record w { scheduler = record (w.scheduler) { rows = rows } }

  unfoldable pub advance_all : List Event → World → World
  unfolding advance
  advance_all [] w = w
  advance_all (e ∷ es) w = advance_all es (advance e w)

  -- A tick that waits for a claim will add a task.
  abbrev pub weight : Stage → ℕ
  weight (noting j r js) = 0
  weight (claiming j ts js) = 1
  weight (answered b j ts js) = 1
  weight finished = 0

  next_stage_fits :
      (jobs : List QueuedJob) (s : Scheduler)
      → (weight (next_stage jobs s) ≡ 0) ⊎ (length s.tasks < s.limit)
  unfolding next_stage is_full
  next_stage_fits [] s = inl refl
  next_stage_fits (job ∷ jobs) s = elim (Bool-cases (leb s.limit (length s.tasks))) [
    | inl e ↦ inl (rw e refl)
    | inr e ↦ inr (ground arith)
  ]

  begin_tick_fits :
      (jobs : List QueuedJob) (s : Scheduler)
      → (weight (begin_tick jobs s) ≡ 0) ⊎ (length s.tasks < s.limit)
  unfolding begin_tick
  begin_tick_fits [] s = inl refl
  begin_tick_fits (job ∷ jobs) s = elim (Bool-cases (eligible node s).0) [
    | inl e ↦ rw e (next_stage_fits (job ∷ jobs) s)
    | inr e ↦ inl (rw e refl)
  ]

  length-spawn :
      (job : QueuedJob) (ts : List Target) (s : Scheduler)
      → length (spawn job ts s).tasks ≤ length s.tasks + 1
  unfolding spawn
  length-spawn job ts s =
      let p = λ (t : Task). negb (t.job.job_id == job.job_id) in
      omega (
        arith,
        length-filter-le p s.tasks,
        length-append (filter p s.tasks) (record { job = job; targets = ts } ∷ []),
      )

  -- A step adds no task that was not reserved, or leaves the scheduler below its limit.
  abbrev Fits : Scheduler → ℕ → Scheduler → ℕ → Type 0
  Fits s a s' b =
      (s'.limit ≡ s.limit)
      × ((length s'.tasks + b ≤ length s.tasks + a) ⊎ (length s'.tasks < s'.limit))

  resume-Fits :
      (now : ℕ) (g : Stage) (s : Scheduler)
      → let (s', g') = resume now g s in Fits s (weight g) s' (weight g')
  unfolding resume
  resume-Fits now (noting job r jobs) s =
      let s' = note job.job_id now r s in (refl, ground (arith, next_stage_fits jobs s'))
  resume-Fits now (claiming job ts jobs) s = (refl, inl (omega arith))
  resume-Fits now (answered true job ts jobs) s =
      let s' = spawn job ts s in
      (unfold spawn in refl, ground (arith, next_stage_fits jobs s', length-spawn job ts s))
  resume-Fits now (answered false job ts jobs) s = (refl, ground (arith, next_stage_fits jobs s))
  resume-Fits now finished s = (refl, inl (omega arith))

  abbrev load : List Stage → ℕ
  load gs = sum_of weight gs

  load-le : (gs : List Stage) → load gs ≤ length gs
  load-le [] = omega arith
  load-le (noting j r js ∷ gs) = omega (arith, load-le gs)
  load-le (claiming j ts js ∷ gs) = omega (arith, load-le gs)
  load-le (answered b j ts js ∷ gs) = omega (arith, load-le gs)
  load-le (finished ∷ gs) = omega (arith, load-le gs)

  -- Tasks and reserved ones stay below the limit and the number of ticks.
  abbrev Bounded : ℕ → ℕ → World → Type 0
  Bounded limit n w =
      (w.scheduler.limit ≡ limit)
      × (length w.ticks ≡ n)
      × (length w.scheduler.tasks + load w.ticks < limit + n)

  resume_at-Fits :
      (i now : ℕ) (s : Scheduler) (gs : List Stage)
      → let (s', gs') = resume_at i now s gs in
        Fits s (load gs) s' (load gs') × (length gs' ≡ length gs)
  unfolding resume_at
  resume_at-Fits i now s [] = ((refl, inl (omega arith)), refl)
  resume_at-Fits zero now s (g ∷ gs) = ground (arith, resume-Fits now g s)
  resume_at-Fits (suc i) now s (g ∷ gs) = ground (arith, resume_at-Fits i now s gs)

  begin_at-Fits :
      (i : ℕ) (jobs : List QueuedJob) (s : Scheduler) (gs : List Stage)
      → Fits s (load gs) s (load (begin_at i jobs s gs))
        × (length (begin_at i jobs s gs) ≡ length gs)
  unfolding begin_at
  begin_at-Fits i jobs s [] = ((refl, inl (omega arith)), refl)
  begin_at-Fits zero jobs s (finished ∷ gs) = ground (arith, begin_tick_fits jobs s)
  begin_at-Fits zero jobs s (noting j r js ∷ gs) = ((refl, inl (omega arith)), refl)
  begin_at-Fits zero jobs s (claiming j ts js ∷ gs) = ((refl, inl (omega arith)), refl)
  begin_at-Fits zero jobs s (answered b j ts js ∷ gs) = ((refl, inl (omega arith)), refl)
  begin_at-Fits (suc i) jobs s (g ∷ gs) = ground (arith, begin_at-Fits i jobs s gs)

  Fits-Bounded :
      (limit n : ℕ) (w w' : World)
      → Fits w.scheduler (load w.ticks) w'.scheduler (load w'.ticks)
        × (length w'.ticks ≡ length w.ticks)
      → Bounded limit n w
      → Bounded limit n w'
  Fits-Bounded limit n w w' f b =
      let few : load w'.ticks ≤ length w'.ticks = load-le w'.ticks in ground arith

  advance-Bounded :
      (limit n : ℕ) (e : Event) (w : World) → Bounded limit n w → Bounded limit n (advance e w)
  unfolding advance
  advance-Bounded limit n (resumes i now) w b =
      Fits-Bounded limit n w (advance (resumes i now) w) (resume_at-Fits i now w.scheduler w.ticks)
        b
  advance-Bounded limit n (begins i jobs) w b =
      Fits-Bounded limit n w (advance (begins i jobs) w) (begin_at-Fits i jobs w.scheduler w.ticks)
        b
  advance-Bounded limit n (ends id) w b =
      let fewer = length-filter-le (λ (t : Task). negb (t.job.job_id == id)) w.scheduler.tasks in
      unfold task_ends in (b.0, b.1, omega arith)
  advance-Bounded limit n (changes rows) w b = b

  advance_all-Bounded :
      (limit n : ℕ) (es : List Event) (w : World)
      → Bounded limit n w
      → Bounded limit n (advance_all es w)
  unfolding advance_all
  advance_all-Bounded limit n [] w b = b
  advance_all-Bounded limit n (e ∷ es) w b =
      advance_all-Bounded limit n es (advance e w) (advance-Bounded limit n e w b)

  -- Where ticks take turns in any order, as do the ends of tasks and other calls of the queue, the
  -- jobs that run are fewer than the limit and the number of ticks together, if none ran at first.
  pub advance_all_bounded :
      (es : List Event) (w : World)
      → w.scheduler.tasks ≡ []
      → All (λ g. g ≡ finished) w.ticks
      → 1 ≤ w.scheduler.limit
      → length (advance_all es w).scheduler.tasks < w.scheduler.limit + length w.ticks
  advance_all_bounded es w none_runs idle some_limit =
      let b = advance_all-Bounded w.scheduler.limit (length w.ticks) es w start in ground arith
    where
      idle_load : (gs : List Stage) → All (λ g. g ≡ finished) gs → load gs ≡ 0
      idle_load [] h = refl
      idle_load (g ∷ gs) h = rw h.0 (omega (arith, idle_load gs h.1))

      start : Bounded w.scheduler.limit (length w.ticks) w
      start = (refl, refl, rw (none_runs, idle_load w.ticks idle) (omega arith))
