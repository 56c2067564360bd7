-- ===== src/Execution/Scheduler/History.antt =====
-- src/mycellm/execution/scheduler.py: what the scheduler does to the table is a run of the queue's
-- operations, so that it loses no job.
use mycellm.Prelude.{
  ℕ, ◌≡◌, inl, inr, refl, sym, ap, ◌∙◌, subst, String, some, List, [], ◌∷◌, ◌++◌, All, All-append,
  Bool, Bool-cases, negb, ◌&&◌,
}
use mycellm.Prelude.Text.{is_empty}
use mycellm.Execution.Models.{Target}
use mycellm.Execution.Queue.Row.{QueuedJob, Rows, interrupted_retry, terminal}
use mycellm.Execution.Queue.{
  Operation, op_claim, op_finish, op_requeue, op_note, op_expire, op_reclaim, apply, apply_all, get,
  expire_due, pending, pending_limit, requeue, claim,
}
use mycellm.Execution.Queue.Validity.{Valid, Allowed}
use mycellm.Execution.Queue.Stages.{SameJob}
use mycellm.Execution.Queue.History.{apply_all_keeps_jobs}
use mycellm.Execution.Queue.Tiers.{Sizes, waiting_reason_for}
use mycellm.Execution.Scheduler.{
  Node, Scheduler, Task, is_no_reason, is_full, eligible, targets_for, targets_of, claim_and_spawn,
  try_job, start_jobs, serve_pending, expire_and_refund, tick, refund,
}
use mycellm.Execution.Scheduler.Running.{
  Answer, answer, raised, interrupted, task_ends, run, start, stop, requeue_tasks, fail, complete,
  Call, ticks, answers, task_done, starts, stops, call, call_all,
}
use mycellm.Execution.Scheduler.Refunds.{refund_all_frame}

-- The second table comes from the first by operations that end jobs in final states only.
abbrev pub Follows : Rows → Rows → Type 0
Follows rows rows' = (os : List Operation) × All Allowed os × (rows' ≡ apply_all os rows)

Follows-refl : (rows : Rows) → Follows rows rows
Follows-refl rows = ([], tt, unfold apply_all in refl)

apply_all-append :
    (os ps : List Operation) (rows : Rows)
    → apply_all (os ++ ps) rows ≡ apply_all ps (apply_all os rows)
unfolding apply_all
apply_all-append [] ps rows = refl
apply_all-append (o ∷ os) ps rows = apply_all-append os ps (apply o rows)

Follows-trans : (a b c : Rows) → Follows a b → Follows b c → Follows a c
Follows-trans a b c f g = (
  f.0 ++ g.0,
  All-append Allowed (f.0) (g.0) (f.1) (g.1),
  g.2 ∙ ap (apply_all (g.0)) (f.2) ∙ sym (apply_all-append (f.0) (g.0) a),
)

-- One operation.
Follows-one : (o : Operation) (rows : Rows) → Allowed o → Follows rows (apply o rows)
Follows-one o rows h = (o ∷ [], (h, tt), unfold apply_all in refl)

claim_and_spawn-Follows :
    (now : ℕ) (job : QueuedJob) (ts : List Target) (s : Scheduler)
    → Follows s.rows ((claim_and_spawn now job ts s).0).rows
unfolding claim_and_spawn
claim_and_spawn-Follows now job ts s = elim (Bool-cases (claim job.job_id now s.rows).1) [
  | inl e ↦ rw e (unfold apply in Follows-one (op_claim job.job_id now) s.rows tt)
  | inr e ↦ rw e (unfold apply in Follows-one (op_claim job.job_id now) s.rows tt)
]

try_job-Follows :
    (sizes : Sizes) (now : ℕ) (all_targets : List Target) (job : QueuedJob) (s : Scheduler)
    → Follows s.rows ((try_job sizes now all_targets job s).0).rows
unfolding try_job
try_job-Follows sizes now all_targets job s =
    let targets = targets_for sizes all_targets job in
    let wait = waiting_reason_for job targets all_targets in
    elim (Bool-cases (is_no_reason wait)) [
      | inl e ↦ rw e (claim_and_spawn-Follows now job targets s)
      | inr e ↦ rw e (unfold apply in Follows-one (op_note job.job_id now wait) s.rows tt)
    ]

start_jobs-Follows :
    (sizes : Sizes) (now : ℕ) (all_targets : List Target) (jobs : List QueuedJob) (s : Scheduler)
    → Follows s.rows ((start_jobs sizes now all_targets jobs s).0).rows
unfolding start_jobs
start_jobs-Follows sizes now all_targets [] s = Follows-refl s.rows
start_jobs-Follows sizes now all_targets (job ∷ jobs) s = elim (Bool-cases (is_full s)) [
  | inl e ↦ rw e (Follows-refl s.rows)
  | inr e ↦ rw e (
      Follows-trans s.rows _ _ (try_job-Follows sizes now all_targets job s)
        (start_jobs-Follows sizes now all_targets jobs (try_job sizes now all_targets job s).0))
]

serve_pending-Follows :
    (sizes : Sizes) (node : Node) (now : ℕ) (jobs : List QueuedJob) (s : Scheduler)
    → Follows s.rows ((serve_pending sizes node now jobs s).0).rows
unfolding serve_pending
serve_pending-Follows sizes node now [] s = Follows-refl s.rows
serve_pending-Follows sizes node now (head ∷ jobs) s = elim (Bool-cases (eligible node s).0) [
  | inl e ↦ rw e (start_jobs-Follows sizes now (targets_of node) (head ∷ jobs) _)
  | inr e ↦
      rw e (unfold apply in Follows-one (op_note head.job_id now (eligible node s).1) s.rows tt)
]

tick-Follows :
    (sizes : Sizes) (node : Node) (now : ℕ) (tx : String → String) (s : Scheduler)
    → Follows s.rows ((tick sizes node now tx s).0).rows
unfolding tick expire_and_refund
tick-Follows sizes node now tx s =
    let mid = expire_and_refund node now tx s in
    let rows : (expire_due now s.rows).0 ≡ mid.rows = sym (
      ap (λ (x : Scheduler). x.rows)
        (refund_all_frame node "expired" tx (expire_due now s.rows).1 _)) in
    Follows-trans s.rows _ _
      (subst (Follows s.rows) rows (unfold apply in Follows-one (op_expire now) s.rows tt))
      (serve_pending-Follows sizes node now (pending mid.owner now pending_limit mid.rows) mid)

requeue_tasks-Follows :
    (now : ℕ) (started : Task → Bool) (ts : List Task) (rows : Rows)
    → Follows rows (requeue_tasks now started ts rows)
unfolding requeue_tasks
requeue_tasks-Follows now started [] rows = Follows-refl rows
requeue_tasks-Follows now started (t ∷ ts) rows = elim (Bool-cases (started t)) [
  | inl e ↦
      let next = requeue t.job.job_id now interrupted_retry rows in
      rw e (
        Follows-trans rows next (requeue_tasks now started ts next)
          (unfold apply in Follows-one (op_requeue t.job.job_id now interrupted_retry) rows tt)
          (requeue_tasks-Follows now started ts next))
  | inr e ↦ rw e (requeue_tasks-Follows now started ts rows)
]

run-Follows :
    (node : Node) (now : ℕ) (tx : String) (t : Task) (a : Answer) (s : Scheduler)
    → Follows s.rows (run node now tx t a s).rows
unfolding run fail complete
run-Follows node now tx t (raised e) s =
    unfold apply refund in
    Follows-one (op_finish t.job.job_id now _) s.rows (unfold terminal in refl)
run-Follows node now tx t interrupted s =
    unfold apply in Follows-one (op_requeue t.job.job_id now interrupted_retry) s.rows tt
run-Follows node now tx t (answer text error meta) s =
    elim (Bool-cases (negb (is_empty error) && is_empty text)) [
      | inl e ↦ rw e (
          unfold apply refund in
          Follows-one (op_finish t.job.job_id now _) s.rows (unfold terminal in refl))
      | inr e ↦ rw e (
          unfold apply in
          Follows-one (op_finish t.job.job_id now _) s.rows (unfold terminal in refl))
    ]

pub call-Follows : (sizes : Sizes) (c : Call) (s : Scheduler) → Follows s.rows (call sizes c s).rows
unfolding call
call-Follows sizes (ticks node now tx) s = tick-Follows sizes node now tx s
call-Follows sizes (answers node now tx t a) s = run-Follows node now tx t a s
call-Follows sizes (task_done id) s = unfold task_ends in Follows-refl s.rows
call-Follows sizes (starts now) s =
    unfold start apply in Follows-one (op_reclaim now 3600) s.rows tt
call-Follows sizes (stops now started) s =
    unfold stop in requeue_tasks-Follows now started s.tasks s.rows

-- Whatever the scheduler does to the table is a run of operations of the queue, none of which ends a
-- job in a state that is not final.
pub call_all-Follows :
    (sizes : Sizes) (cs : List Call) (s : Scheduler) → Follows s.rows (call_all sizes cs s).rows
unfolding call_all
call_all-Follows sizes [] s = Follows-refl s.rows
call_all-Follows sizes (c ∷ cs) s =
    Follows-trans s.rows _ _ (call-Follows sizes c s) (call_all-Follows sizes cs (call sizes c s))

-- No run of the scheduler on a valid table loses a job: it is found with all that was submitted.
pub call_all_keeps_jobs :
    (sizes : Sizes) (cs : List Call) (s : Scheduler)
    → Valid s.rows
    → (id : String) (r : QueuedJob) → get id s.rows ≡ some r
    → (r' : QueuedJob) × (get id (call_all sizes cs s).rows ≡ some r') × SameJob r r'
call_all_keeps_jobs sizes cs s v id r h =
    let f = call_all-Follows sizes cs s in
    let kept = apply_all_keeps_jobs (f.0) s.rows (f.1) v id r h in
    (kept.0, ap (get id) (f.2) ∙ kept.1, kept.2)
