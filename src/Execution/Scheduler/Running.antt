-- ===== src/Execution/Scheduler/Running.antt =====
-- src/mycellm/execution/scheduler.py: what becomes of a task, and a scheduler's life.
use mycellm.Prelude.{ℕ, String, Bool, ◌&&◌, List, [], ◌∷◌, filter, negb, ◌==◌, if◌then◌else◌}
use mycellm.Prelude.Text.{Text, is_empty}
use mycellm.Execution.Queue.Row.{
  done, failed, interrupted_retry, no_failure, failed_with, UnitRecord, Rows,
}
use mycellm.Execution.Queue.{Ending, finish, requeue, reclaim_stale_running}
use mycellm.Execution.Queue.Tiers.{Sizes}
use mycellm.Execution.Scheduler.Attribution.{attribution}
use mycellm.Execution.Scheduler.{Node, Scheduler, Task, refund, tick}

-- What `execute_job` returns or raises: an answer's missing parts are empty.
pub data Answer : Type 0 where
  answer : Text → Text → List UnitRecord → Answer
  raised : Text → Answer
  interrupted : Answer

-- The done callback of a task.
unfoldable pub task_ends : String → Scheduler → Scheduler
task_ends id s = record s { tasks = filter (λ t. negb (t.job.job_id == id)) s.tasks }

-- What `finish` is given for a job that failed.
abbrev pub failure : Text → List UnitRecord → Ending
failure error meta = record {
  state = failed;
  text = [];
  error = failed_with error;
  served_by = [];
  served_model = "";
  meta = meta;
}

unfoldable pub fail : Node → ℕ → String → Task → Text → List UnitRecord → Scheduler → Scheduler
unfolding finish refund
fail node now tx t error meta s =
    refund node "failed" tx t.job.job_id
      (record s { rows = finish t.job.job_id now (failure error meta) s.rows })

unfoldable pub complete : ℕ → Task → Text → List UnitRecord → Scheduler → Scheduler
unfolding finish attribution
complete now t text meta s =
    let (served_by, served_model) = attribution meta t.targets in
    record s {
      rows =
          finish t.job.job_id now
            (record {
              state = done;
              text = text;
              error = no_failure;
              served_by = served_by;
              served_model = served_model;
              meta = meta;
            })
            s.rows;
    }

-- `_run` once `execute_job` has answered.
unfoldable pub run : Node → ℕ → String → Task → Answer → Scheduler → Scheduler
unfolding requeue fail complete
run node now tx t (raised e) s = fail node now tx t e [] s
run node now tx t interrupted s = record s {
  rows = requeue t.job.job_id now interrupted_retry s.rows;
}
run node now tx t (answer text error meta) s =
    if negb (is_empty error) && is_empty text
    then fail node now tx t error meta s
    else complete now t text meta s

-- `start`, where no loop runs: rows that have run for an hour go back to the queue.
unfoldable pub start : ℕ → Scheduler → Scheduler
unfolding reclaim_stale_running
start now s = record s { rows = (reclaim_stale_running now 3600 s.rows).0 }

-- `started` says whether a task has had its first step, without which no handler of it runs.
unfoldable pub requeue_tasks : ℕ → (Task → Bool) → List Task → Rows → Rows
unfolding requeue
requeue_tasks now started [] rows = rows
requeue_tasks now started (t ∷ ts) rows =
    requeue_tasks now started ts
      (if started t then requeue t.job.job_id now interrupted_retry rows else rows)

-- `stop` cancels every task; one that has started then puts its job back, and the job of one that has
-- not stays RUNNING.
unfoldable pub stop : ℕ → (Task → Bool) → Scheduler → Scheduler
unfolding requeue_tasks
stop now started s = record s { rows = requeue_tasks now started s.tasks s.rows; tasks = [] }

-- The calls that change the scheduler or its queue.
pub data Call : Type 0 where
  ticks : Node → ℕ → (String → String) → Call
  answers : Node → ℕ → String → Task → Answer → Call
  task_done : String → Call
  starts : ℕ → Call
  stops : ℕ → (Task → Bool) → Call

unfoldable pub call : Sizes → Call → Scheduler → Scheduler
unfolding tick run task_ends start stop
call sizes (ticks node now tx) s = (tick sizes node now tx s).0
call sizes (answers node now tx t a) s = run node now tx t a s
call sizes (task_done id) s = task_ends id s
call sizes (starts now) s = start now s
call sizes (stops now started) s = stop now started s

unfoldable pub call_all : Sizes → List Call → Scheduler → Scheduler
unfolding call
call_all sizes [] s = s
call_all sizes (c ∷ cs) s = call_all sizes cs (call sizes c s)
