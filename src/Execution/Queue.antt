-- ===== src/Execution/Queue.antt =====
-- src/mycellm/execution/queue.py: the operations of the queue of jobs that wait for a device.
-- The table of jobs is a list of rows in the order in which they were added; where a query orders
-- rows by a column, rows that tie keep that order. `time.time()` and a new job's identifier are
-- arguments.
pub mod Row
pub mod Validity
pub mod Stages
pub mod Expiry
pub mod History
mod Order
mod Roundtrip
pub mod Tiers
mod Tests
use mycellm.Prelude.{
  ℕ, suc, ◌+◌, ◌-◌, String, Option, Bool, ◌&&◌, ◌||◌, true, false, List, [], ◌∷◌, ◌++◌, map, filter,
  find, take, any, length, is_nil, ltb, leb, negb, ◌==◌, if◌then◌else◌,
}
use mycellm.Prelude.Text.{Text}
use mycellm.Prelude.Sort.{sort_by}
use mycellm.Execution.Queue.Row.{
  JobState, queued, running, expired, cancelled, is_queued, is_running, WaitingReason, no_reason,
  interrupted_run, FailureText, deadline_passed, UnitRecord, QueuedJob, Rows, sorts_before,
  Submission, new_job,
}

abbrev pub has_id : String → QueuedJob → Bool
has_id id r = r.job_id == id

-- The identifier is the table's primary key: with one that is taken the insertion raises, which
-- leaves the table as it is; the exception itself is left out.
unfoldable pub submit : String → String → ℕ → Submission → Rows → Rows
unfolding new_job
submit owner id now s rows =
    if any (has_id id) rows then rows else rows ++ new_job owner id now s ∷ []

-- `UPDATE ... SET ... WHERE ...`, and its row count.
unfoldable pub update_where : (QueuedJob → Bool) → (QueuedJob → QueuedJob) → Rows → Rows
update_where p f rows = map (λ r. if p r then f r else r) rows

unfoldable pub claims : String → QueuedJob → Bool
claims id r = has_id id r && is_queued r.state

abbrev pub claim_row : ℕ → QueuedJob → QueuedJob
claim_row now r = record r {
  state = running;
  started_at = now;
  updated_at = now;
  attempts = r.attempts + 1;
  waiting_reason = no_reason;
}

unfoldable pub claim : String → ℕ → Rows → Rows × Bool
unfolding claims update_where
claim id now rows =
    (update_where (claims id) (claim_row now) rows, negb (is_nil (filter (claims id) rows)))

pub record Ending : Type 0 where
  pub state : JobState
  pub text : Text
  pub error : FailureText
  pub served_by : Text
  pub served_model : String
  pub meta : List UnitRecord

abbrev pub finish_row : ℕ → Ending → QueuedJob → QueuedJob
finish_row now e r = record r {
  state = e.state;
  finished_at = now;
  updated_at = now;
  result_text = e.text;
  error = e.error;
  served_by = e.served_by;
  served_model = e.served_model;
  meta = e.meta;
}

unfoldable pub finish : String → ℕ → Ending → Rows → Rows
unfolding update_where
finish id now e rows = update_where (has_id id) (finish_row now e) rows

-- `attempts - 1` stops at 0 here, which the attempts of a running job do not reach.
abbrev pub requeue_row : ℕ → WaitingReason → QueuedJob → QueuedJob
requeue_row now reason r = record r {
  state = queued;
  updated_at = now;
  started_at = 0;
  waiting_reason = reason;
  attempts = r.attempts - 1;
}

abbrev pub runs_as : String → QueuedJob → Bool
runs_as id r = has_id id r && is_running r.state

unfoldable pub requeue : String → ℕ → WaitingReason → Rows → Rows
unfolding update_where
requeue id now reason rows = update_where (runs_as id) (requeue_row now reason) rows

abbrev pub note_row : ℕ → WaitingReason → QueuedJob → QueuedJob
note_row now reason r = record r { waiting_reason = reason; updated_at = now }

unfoldable pub note_waiting : String → ℕ → WaitingReason → Rows → Rows
unfolding claims update_where
note_waiting id now reason rows = update_where (claims id) (note_row now reason) rows

abbrev pub cancellable : String → QueuedJob → Bool
cancellable id r = has_id id r && (is_queued r.state || is_running r.state)

abbrev pub cancel_row : ℕ → QueuedJob → QueuedJob
cancel_row now r = record r { state = cancelled; finished_at = now; updated_at = now }

unfoldable pub cancel : String → ℕ → Rows → Rows × Bool
unfolding update_where
cancel id now rows = (
  update_where (cancellable id) (cancel_row now) rows,
  negb (is_nil (filter (cancellable id) rows)),
)

unfoldable pub is_due : ℕ → QueuedJob → Bool
is_due now r = is_queued r.state && (ltb 0 r.expires_at && leb r.expires_at now)

-- `job_id in ids`
unfoldable pub listed : List String → QueuedJob → Bool
listed [] r = false
listed (i ∷ ids) r = has_id i r || listed ids r

abbrev pub expire_row : ℕ → QueuedJob → QueuedJob
expire_row now r = record r {
  state = expired;
  finished_at = now;
  updated_at = now;
  error = deadline_passed;
}

unfoldable pub expire_due : ℕ → Rows → Rows × List String
unfolding is_due listed update_where
expire_due now rows =
    let ids = map (λ r. r.job_id) (filter (is_due now) rows) in
    (update_where (listed ids) (expire_row now) rows, ids)

unfoldable pub is_stale : ℕ → ℕ → QueuedJob → Bool
is_stale now older r = is_running r.state && (ltb 0 r.started_at && ltb (r.started_at + older) now)

abbrev pub reclaim_row : ℕ → QueuedJob → QueuedJob
reclaim_row now r = record r {
  state = queued;
  started_at = 0;
  updated_at = now;
  waiting_reason = interrupted_run;
}

unfoldable pub reclaim_stale_running : ℕ → ℕ → Rows → Rows × ℕ
unfolding is_stale update_where
reclaim_stale_running now older rows = (
  update_where (is_stale now older) (reclaim_row now) rows,
  length (filter (is_stale now older) rows),
)

unfoldable pub get : String → Rows → Option QueuedJob
get id rows = find (has_id id) rows

unfoldable pub pending : String → ℕ → ℕ → Rows → Rows
unfolding sorts_before sort_by
pending owner now limit rows = sort_by (sorts_before owner now) (
    take limit
      (sort_by (λ x y. ltb x.created_at y.created_at) (filter (λ r. is_queued r.state) rows)))

position_in : String → ℕ → Rows → ℕ
position_in id i [] = 0
position_in id i (r ∷ rs) = let rest = position_in id (suc i) rs in if has_id id r then i else rest

-- The default limit of `pending`.
abbrev pub pending_limit : ℕ
pending_limit = 200

unfoldable pub position : String → ℕ → String → Rows → ℕ
unfolding position_in pending
position owner now id rows = position_in id 1 (pending owner now pending_limit rows)

pub data Operation : Type 0 where
  op_submit : String → String → ℕ → Submission → Operation
  op_claim op_cancel : String → ℕ → Operation
  op_finish : String → ℕ → Ending → Operation
  op_requeue op_note : String → ℕ → WaitingReason → Operation
  op_expire : ℕ → Operation
  op_reclaim : ℕ → ℕ → Operation

-- The table after an operation that writes.
unfoldable pub apply : Operation → Rows → Rows
unfolding submit claim finish requeue note_waiting cancel expire_due reclaim_stale_running
apply (op_submit owner id now s) rows = submit owner id now s rows
apply (op_claim id now) rows = (claim id now rows).0
apply (op_cancel id now) rows = (cancel id now rows).0
apply (op_finish id now e) rows = finish id now e rows
apply (op_requeue id now reason) rows = requeue id now reason rows
apply (op_note id now reason) rows = note_waiting id now reason rows
apply (op_expire now) rows = (expire_due now rows).0
apply (op_reclaim now older) rows = (reclaim_stale_running now older rows).0

unfoldable pub apply_all : List Operation → Rows → Rows
unfolding apply
apply_all [] rows = rows
apply_all (o ∷ os) rows = apply_all os (apply o rows)
