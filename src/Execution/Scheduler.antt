-- ===== src/Execution/Scheduler.antt =====
-- src/mycellm/execution/scheduler.py: when a queued job is started, and what becomes of its stake.
-- A tick is one call, with no other between its awaits; Scheduler/Overlap lets ticks overlap.
-- The clock, the identifiers of transactions and what the node answers are arguments. Calls of the
-- queue and the ledger return.
mod Attribution
mod Eligibility
mod Refunds
pub mod Running
pub mod Outcome
mod Overlap
pub mod Stakes
pub mod Payback
mod Conservation
mod Fitness
mod History
mod Tests
use mycellm.Prelude.{
  ℕ, String, Option, none, some, Bool, true, false, ◌&&◌, ◌||◌, List, [], ◌∷◌, ◌++◌, filter, map,
  length, is_nil, max, eqb, leb, negb, ◌==◌, if◌then◌else◌,
}
use mathlib.Core.Option
use mycellm.Prelude.Text.{Text, is_empty}
use mycellm.Execution.Models.{Target}
use mycellm.Execution.Queue.Row.{
  done, failed, WaitingReason, no_reason, low_power, throttled, busy, interrupted_retry,
  FailureText, no_failure, failed_with, UnitRecord, QueuedJob, Rows,
}
use mycellm.Execution.Queue.{
  Ending, claim, finish, requeue, note_waiting, expire_due, pending, pending_limit, get,
  reclaim_stale_running,
}
use mycellm.Execution.Queue.Tiers.{Sizes, filter_targets, waiting_reason_for}
use mycellm.Accounting.Ledger.{Ledger, Memo, credit_account, stake_refund}
use mycellm.Execution.Scheduler.Attribution.{attribution}

pub record Hardware : Type 0 where
  pub power_constrained : Bool
  pub thermal_constrained : Bool

-- What the scheduler reads of its node: `targets` is `none` where listing them raises.
pub record Node : Type 0 where
  pub peer_id : String
  pub hardware : Option Hardware
  pub targets : Option (List Target)

-- A task that runs `_run(job, targets)`.
pub record Task : Type 0 where
  pub job : QueuedJob
  pub targets : List Target

-- The scheduler with the queue and the ledger that it shares.
pub record Scheduler : Type 0 where
  pub owner : String
  pub rows : Rows
  pub ledger : Option Ledger
  pub limit : ℕ
  pub tasks : List Task
  pub last_reason : WaitingReason

-- `max(1, max_concurrent)`
unfoldable pub new_scheduler : String → Rows → Option Ledger → ℕ → Scheduler
new_scheduler owner rows ledger max_concurrent = record {
  owner = owner;
  rows = rows;
  ledger = ledger;
  limit = max 1 max_concurrent;
  tasks = [];
  last_reason = no_reason;
}

unfoldable pub is_full : Scheduler → Bool
is_full s = leb s.limit (length s.tasks)

unfoldable pub eligible : Node → Scheduler → Bool × WaitingReason
unfolding is_full
eligible node s = if is_full s then (false, busy (length s.tasks)) else elim node.hardware [
  | none ↦ (true, no_reason)
  | some h ↦
      if h.power_constrained
      then (false, low_power)
      else if h.thermal_constrained
      then (false, throttled)
      else (true, no_reason)
]

abbrev pub refundable : QueuedJob → Bool
refundable job = negb (eqb job.stake 0 || job.owner_id == "")

unfoldable pub pay_back : Memo → Option QueuedJob → Ledger → Ledger
pay_back m none l = l
pay_back m (some job) l = if refundable job then credit_account job.owner_id "" job.stake m l else l

-- `why` is what follows the colon in the transaction's reason.
abbrev pub refund_memo : Node → String → String → Memo
refund_memo node why tx = record {
  tx_id = tx;
  reason = stake_refund why;
  counterparty_id = node.peer_id;
  receipt_signature = [];
}

unfoldable pub refund : Node → String → String → String → Scheduler → Scheduler
unfolding pay_back get
refund node why tx id s = record s {
  ledger = Option.map (pay_back (refund_memo node why tx) (get id s.rows)) s.ledger;
}

-- The transaction that refunds a job has an identifier of its own.
unfoldable pub refund_all : Node → String → (String → String) → List String → Scheduler → Scheduler
unfolding refund
refund_all node why tx [] s = s
refund_all node why tx (id ∷ ids) s = refund_all node why tx ids (refund node why (tx id) id s)

unfoldable pub targets_of : Node → List Target
targets_of node = elim node.targets [ none ↦ [] | some ts ↦ ts ]

-- The targets that a job may run on.
unfoldable pub targets_for : Sizes → List Target → QueuedJob → List Target
unfolding filter_targets
targets_for sizes all_targets job =
    let kept = filter_targets sizes all_targets job.min_tier in
    if negb (job.model == "") && negb (job.model == "mycellm/swarm")
    then filter (λ t. t.model == job.model) kept
    else kept

-- `_running[job.job_id] = task`
unfoldable pub spawn : QueuedJob → List Target → Scheduler → Scheduler
spawn job targets s = record s {
  tasks =
      filter (λ t. negb (t.job.job_id == job.job_id)) s.tasks
      ++ record { job = job; targets = targets } ∷ [];
}

abbrev pub is_no_reason : WaitingReason → Bool
is_no_reason no_reason = true
is_no_reason _ = false

abbrev pub note : String → ℕ → WaitingReason → Scheduler → Scheduler
note id now reason s = record s { rows = note_waiting id now reason s.rows }

-- `claim`, and then `_spawn` where it succeeds.
unfoldable pub claim_and_spawn : ℕ → QueuedJob → List Target → Scheduler → Scheduler × Bool
unfolding claim spawn
claim_and_spawn now job targets s =
    let (rows, won) = claim job.job_id now s.rows in
    if won
    then (spawn job targets (record s { rows = rows }), true)
    else (record s { rows = rows }, false)

-- One pass of the loop of a tick, past its check of the limit.
unfoldable pub try_job : Sizes → ℕ → List Target → QueuedJob → Scheduler → Scheduler × Bool
unfolding targets_for claim_and_spawn waiting_reason_for
try_job sizes now all_targets job s =
    let targets = targets_for sizes all_targets job in
    let wait = waiting_reason_for job targets all_targets in
    if is_no_reason wait
    then claim_and_spawn now job targets s
    else (note job.job_id now wait s, false)

unfoldable pub start_jobs : Sizes → ℕ → List Target → List QueuedJob → Scheduler → Scheduler × Bool
unfolding try_job is_full
start_jobs sizes now all_targets [] s = (s, false)
start_jobs sizes now all_targets (job ∷ jobs) s =
    let (s', started) = try_job sizes now all_targets job s in
    let (s'', more) = start_jobs sizes now all_targets jobs s' in
    if is_full s then (s, false) else (s'', started || more)

-- What a tick does with the jobs that it finds pending.
unfoldable pub serve_pending : Sizes → Node → ℕ → List QueuedJob → Scheduler → Scheduler × Bool
unfolding eligible start_jobs targets_of
serve_pending sizes node now [] s = (record s { last_reason = no_reason }, false)
serve_pending sizes node now (head ∷ jobs) s =
    let (ok, reason) = eligible node s in
    let noted = record s { last_reason = reason } in
    if ok
    then start_jobs sizes now (targets_of node) (head ∷ jobs) noted
    else (note head.job_id now reason noted, false)

unfoldable pub expire_and_refund : Node → ℕ → (String → String) → Scheduler → Scheduler
unfolding expire_due refund_all
expire_and_refund node now tx s =
    let (rows, ids) = expire_due now s.rows in
    refund_all node "expired" tx ids (record s { rows = rows })

unfoldable pub tick : Sizes → Node → ℕ → (String → String) → Scheduler → Scheduler × Bool
unfolding expire_and_refund serve_pending pending
tick sizes node now tx s =
    let s' = expire_and_refund node now tx s in
    serve_pending sizes node now (pending s'.owner now pending_limit s'.rows) s'
