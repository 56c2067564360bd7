-- ===== src/Execution/Scheduler/Fitness.antt =====
-- src/mycellm/execution/scheduler.py: the targets that a started job gets.
use mycellm.Prelude.{
  ℕ, ◌≡◌, ◌≤◌, inl, inr, refl, String, Bool, true, false, ◌&&◌, List, [], ◌∷◌, filter, All,
  All-append, All-filter, All-filter_self, is_nil, Bool-cases, negb, ◌==◌, subst, sym, arith, ap,
}
use mycellm.Execution.Models.{Target}
use mycellm.Execution.Queue.Row.{QueuedJob, WaitingReason, no_reason}
use mycellm.Execution.Queue.{claim, expire_due, pending, pending_limit}
use mycellm.Execution.Queue.Tiers.{
  Sizes, filter_targets, waiting_reason_for, waiting_reason_for_lem, floor_size, size_of,
  filter_targets_floor,
}
use mycellm.Execution.Scheduler.{
  Node, Scheduler, Task, is_full, is_no_reason, eligible, targets_for, targets_of, spawn,
  claim_and_spawn, try_job, start_jobs, serve_pending, expire_and_refund, tick,
}
use mycellm.Execution.Scheduler.Refunds.{refund_all_frame}

-- The job names a model that targets have.
abbrev pub names_model : QueuedJob → Bool
names_model job = negb (job.model == "") && negb (job.model == "mycellm/swarm")

-- There is a target; each is as large as the job's floor, and has the model that the job names.
abbrev pub IsFit : Sizes → Task → Type 0
IsFit sizes t =
    (is_nil t.targets ≡ false)
    × ((t.job.min_tier == "") ≡ false
        → All (λ u. floor_size t.job.min_tier ≤ size_of sizes u) t.targets)
    × (names_model t.job ≡ true → All (λ u. (u.model == t.job.model) ≡ true) t.targets)

module _ (sizes : Sizes) (all_targets : List Target) where
  targets_for_floor :
      (job : QueuedJob)
      → (job.min_tier == "") ≡ false
      → All (λ u. floor_size job.min_tier ≤ size_of sizes u) (targets_for sizes all_targets job)
  unfolding targets_for
  targets_for_floor job h =
      let kept = filter_targets_floor sizes all_targets job.min_tier h in
      elim (Bool-cases (names_model job)) [
        | inl e ↦ rw e (
            All-filter _ (λ t. t.model == job.model) (filter_targets sizes all_targets job.min_tier)
              kept)
        | inr e ↦ rw e kept
      ]

  targets_for_model :
      (job : QueuedJob)
      → names_model job ≡ true
      → All (λ u. (u.model == job.model) ≡ true) (targets_for sizes all_targets job)
  unfolding targets_for
  targets_for_model job h =
      rw h (
        All-filter_self (λ t. t.model == job.model) (filter_targets sizes all_targets job.min_tier))

  no_reason_of : (w : WaitingReason) → is_no_reason w ≡ true → w ≡ no_reason
  no_reason_of no_reason h = refl
  no_reason_of w h = ground arith

  is_nil-filter :
      (p : Target → Bool) (ts : List Target) → is_nil ts ≡ true → is_nil (filter p ts) ≡ true
  is_nil-filter p [] h = refl
  is_nil-filter p (t ∷ ts) h = absurd (cc)

  is_nil-filter_targets :
      (tier : String)
      → is_nil all_targets ≡ true
      → is_nil (filter_targets sizes all_targets tier) ≡ true
  unfolding filter_targets
  is_nil-filter_targets tier h = elim (Bool-cases (tier == "")) [
    | inl e ↦ rw e h
    | inr e ↦ rw e (is_nil-filter _ all_targets h)
  ]

  is_nil-targets_for :
      (job : QueuedJob)
      → is_nil all_targets ≡ true
      → is_nil (targets_for sizes all_targets job) ≡ true
  unfolding targets_for
  is_nil-targets_for job h =
      let kept = is_nil-filter_targets job.min_tier h in
      elim (Bool-cases (names_model job)) [
        | inl e ↦ rw e (is_nil-filter _ _ kept)
        | inr e ↦ rw e kept
      ]

  targets_for-IsFit :
      (job : QueuedJob)
      → is_no_reason (waiting_reason_for job (targets_for sizes all_targets job) all_targets) ≡ true
      → IsFit sizes (record { job = job; targets = targets_for sizes all_targets job })
  targets_for-IsFit job h = (
    (waiting_reason_for_lem job (targets_for sizes all_targets job) all_targets
          (is_nil-targets_for job)).0
        (no_reason_of _ h),
    targets_for_floor job,
    targets_for_model job,
  )

  claim_and_spawn-IsFit :
      (now : ℕ) (job : QueuedJob) (ts : List Target) (s : Scheduler)
      → IsFit sizes (record { job = job; targets = ts })
      → All (IsFit sizes) s.tasks
      → All (IsFit sizes) ((claim_and_spawn now job ts s).0).tasks
  unfolding claim_and_spawn spawn
  claim_and_spawn-IsFit now job ts s fit h = elim (Bool-cases (claim job.job_id now s.rows).1) [
    | inl e ↦ rw e (
        All-append (IsFit sizes) (filter _ s.tasks) (_ ∷ []) (All-filter (IsFit sizes) _ s.tasks h)
          (fit, tt))
    | inr e ↦ rw e h
  ]

  try_job-IsFit :
      (now : ℕ) (job : QueuedJob) (s : Scheduler)
      → All (IsFit sizes) s.tasks
      → All (IsFit sizes) ((try_job sizes now all_targets job s).0).tasks
  unfolding try_job
  try_job-IsFit now job s h =
      let targets = targets_for sizes all_targets job in
      elim (Bool-cases (is_no_reason (waiting_reason_for job targets all_targets))) [
        | inl e ↦ rw e (claim_and_spawn-IsFit now job targets s (targets_for-IsFit job e) h)
        | inr e ↦ rw e h
      ]

  start_jobs-IsFit :
      (now : ℕ) (jobs : List QueuedJob) (s : Scheduler)
      → All (IsFit sizes) s.tasks
      → All (IsFit sizes) ((start_jobs sizes now all_targets jobs s).0).tasks
  unfolding start_jobs
  start_jobs-IsFit now [] s h = h
  start_jobs-IsFit now (job ∷ jobs) s h = elim (Bool-cases (is_full s)) [
    | inl e ↦ rw e h
    | inr e ↦ rw e (start_jobs-IsFit now jobs _ (try_job-IsFit now job s h))
  ]

serve_pending-IsFit :
    (sizes : Sizes) (node : Node) (now : ℕ) (jobs : List QueuedJob) (s : Scheduler)
    → All (IsFit sizes) s.tasks
    → All (IsFit sizes) ((serve_pending sizes node now jobs s).0).tasks
unfolding serve_pending
serve_pending-IsFit sizes node now [] s h = h
serve_pending-IsFit sizes node now (head ∷ jobs) s h = elim (Bool-cases (eligible node s).0) [
  | inl e ↦ rw e (start_jobs-IsFit sizes (targets_of node) now (head ∷ jobs) _ h)
  | inr e ↦ rw e h
]

-- A tick keeps that every task has a target, that each of its targets is as large as the job's quality
-- floor, and that each has the model that the job names.
pub tick-IsFit :
    (sizes : Sizes) (node : Node) (now : ℕ) (tx : String → String) (s : Scheduler)
    → All (IsFit sizes) s.tasks
    → All (IsFit sizes) ((tick sizes node now tx s).0).tasks
unfolding tick expire_and_refund
tick-IsFit sizes node now tx s h =
    let mid = expire_and_refund node now tx s in
    let tasks : s.tasks ≡ mid.tasks = sym (
      ap (λ (x : Scheduler). x.tasks)
        (refund_all_frame node "expired" tx (expire_due now s.rows).1 _)) in
    serve_pending-IsFit sizes node now (pending mid.owner now pending_limit mid.rows) mid
      (subst (All (IsFit sizes)) tasks h)
