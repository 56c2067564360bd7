-- ===== src/Execution/Scheduler/Tests.antt =====
-- Runs of the scheduler of src/mycellm/execution/scheduler.py, and its theorems at these inputs.
use mycellm.Prelude.{
  ℕ, ◌+◌, ◌≤◌, ◌<◌, ◌≡◌, inl, refl, String, none, some, Bool, true, false, List, [], ◌∷◌, All,
  length, arith,
}
use mathlib.Core.Option
use mycellm.Prelude.Text.{codes}
use mycellm.Execution.Policy.Samples.{fleet}
use mycellm.Execution.Queue.Row.{
  QueuedJob, Rows, Submission, new_job, running, failed, terminal, no_reason,
}
use mycellm.Execution.Queue.{claim, get}
use mycellm.Execution.Queue.Validity.{Valid, Distinct}
use mycellm.Execution.Queue.Stages.{SameJob}
use mycellm.Execution.Queue.Tiers.{Sizes}
use mycellm.Accounting.Ledger.{Ledger, account_of, balance_of, ensure_account, credit_account}
use mycellm.Accounting.Tracker.Payment.{Open}
use mycellm.Execution.Scheduler.{Node, Scheduler, Task, new_scheduler, is_full, tick}
use mycellm.Execution.Scheduler.Running.{raised, run, call_all, ticks, answers, task_done, stops}
use mycellm.Execution.Scheduler.Attribution.{attribution, target_text, served_name}
use mycellm.Execution.Scheduler.Eligibility.{runs, tick-constrained}
use mycellm.Execution.Scheduler.Fitness.{IsFit, tick-IsFit}
use mycellm.Execution.Scheduler.History.{call_all_keeps_jobs}
use mycellm.Execution.Scheduler.Outcome.{run_pays_back}
use mycellm.Execution.Scheduler.Payback.{wealth}
use mycellm.Execution.Scheduler.Conservation.{tick_conserves}
use mycellm.Execution.Scheduler.Overlap.{
  Event, resumes, begins, World, finished, advance_all, advance_all_bounded,
}

program : Unit {0}
unfolding tick run call_all advance_all new_scheduler new_job get ensure_account balance_of
    credit_account attribution target_text served_name is_full terminal
program = tt

abbrev wish : ℕ → ℕ → String → Submission
wish stake ttl tier = record {
  messages = [];
  owner_id = "me";
  model = "";
  min_tier = tier;
  trust = "";
  temperature = 70;
  max_tokens = 256;
  token_budget = 0;
  fanout = 0;
  stake = stake;
  ttl_s = ttl;
}

-- Two jobs that may run, and one whose deadline passes at 160.
abbrev table : Rows
table =
    new_job "me" "q1" 100 (wish 5 0 "")
    ∷ new_job "me" "q2" 101 (wish 0 0 "fast")
    ∷ new_job "me" "q3" 102 (wish 30 60 "")
    ∷ []

abbrev credits : Ledger
credits = ensure_account "me" 100 "" (record { accounts = []; transactions = []; receipts = [] })

abbrev fresh_one : Scheduler
fresh_one = new_scheduler "me" table (some credits) 1

abbrev device : Bool → Node
device low = record {
  peer_id = "me";
  hardware = some (record { power_constrained = low; thermal_constrained = false });
  targets = some fleet;
}

abbrev no_sizes : Sizes
no_sizes m = none

abbrev tx_of : String → String
tx_of id = id

-- One job is started, the one with the higher stake, and the limit holds the other.
one_started : length ((tick no_sizes (device false) 200 tx_of fresh_one).0).tasks ≡ 1
unfolding program
one_started = refl

-- The third job expired, and its stake came back.
stake_came_back :
    Option.map (balance_of "me" "") ((tick no_sizes (device false) 200 tx_of fresh_one).0).ledger
    ≡ some 130
unfolding program
stake_came_back = refl

-- On battery nothing starts.
none_started : ((tick no_sizes (device true) 200 tx_of fresh_one).0).tasks ≡ []
unfolding program
none_started = refl

tick-constrained_example :
    let (s', started) = tick no_sizes (device true) 200 tx_of fresh_one in
    (started ≡ false) × (s'.tasks ≡ fresh_one.tasks) × (runs s'.rows ≤ runs fresh_one.rows)
tick-constrained_example = tick-constrained no_sizes (device true) 200 tx_of fresh_one (inl refl)

tick-IsFit_example :
    All (IsFit no_sizes) ((tick no_sizes (device false) 200 tx_of fresh_one).0).tasks
tick-IsFit_example =
    tick-IsFit no_sizes (device false) 200 tx_of fresh_one (unfold new_scheduler in tt)

table-Distinct : Distinct table
unfolding program
table-Distinct = ((refl, (refl, tt)), ((refl, tt), (tt, tt)))

account : Open "me" "" credits.accounts
unfolding program account_of
account = (_, refl)

tick_conserves_example :
    let s' = (tick no_sizes (device false) 200 tx_of fresh_one).0 in
    (l' : Ledger) × (s'.ledger ≡ some l')
    × (wealth "me" s'.rows l' ≡ wealth "me" fresh_one.rows credits)
tick_conserves_example =
    tick_conserves "me" no_sizes (device false) 200 tx_of fresh_one credits refl
      (unfold new_scheduler in refl) account (unfold new_scheduler in table-Distinct)

table-Valid : Valid table
unfolding program
table-Valid = (
  table-Distinct,
  (
    ((λ e. absurd (cc)), λ e. refl),
    (((λ e. absurd (cc)), λ e. refl), (((λ e. absurd (cc)), λ e. refl), tt)),
  ),
)

abbrev second_job : QueuedJob
second_job = new_job "me" "q2" 101 (wish 0 0 "fast")

second_here : get "q2" table ≡ some second_job
unfolding program
second_here = refl

abbrev first_task : Task
first_task = record { job = new_job "me" "q1" 100 (wish 5 0 ""); targets = fleet }

call_all_keeps_jobs_example :
    (r' : QueuedJob) × (get "q2"
        (call_all no_sizes
          (ticks (device false) 200 tx_of
            ∷ answers (device false) 210 "t" first_task (raised [])
            ∷ task_done "q1"
            ∷ ticks (device false) 220 tx_of
            ∷ stops 230 (λ t. true)
            ∷ [])
          fresh_one).rows
      ≡ some r')
    × SameJob second_job r'
call_all_keeps_jobs_example =
    call_all_keeps_jobs no_sizes
      (ticks (device false) 200 tx_of
        ∷ answers (device false) 210 "t" first_task (raised [])
        ∷ task_done "q1"
        ∷ ticks (device false) 220 tx_of
        ∷ stops 230 (λ t. true)
        ∷ [])
      fresh_one (unfold new_scheduler in table-Valid) "q2" second_job
      (unfold new_scheduler in second_here)

-- The first job, claimed.
abbrev claimed : Scheduler
claimed = record fresh_one { rows = (claim "q1" 200 table).0; tasks = first_task ∷ [] }

abbrev claimed_job : QueuedJob
claimed_job = record (new_job "me" "q1" 100 (wish 5 0 "")) {
  state = running;
  started_at = 200;
  updated_at = 200;
  attempts = 1;
  waiting_reason = no_reason;
}

claimed_here : get "q1" claimed.rows ≡ some claimed_job
unfolding program claim
claimed_here = refl

run_pays_back_example :
    let s' = run (device false) 210 "t" first_task (raised (codes "boom")) claimed in
    (r' : QueuedJob) × (l' : Ledger) × (get "q1" s'.rows ≡ some r')
    × (r'.state ≡ failed)
    × (s'.ledger ≡ some l')
    × (balance_of "me" "" l' ≡ balance_of "me" "" credits + 5)
    × (true ≡ false → l' ≡ credits)
unfolding new_job
run_pays_back_example =
    run_pays_back (device false) 210 "t" first_task claimed claimed_job credits
      (unfold new_scheduler in refl) claimed_here (raised (codes "boom")) refl refl account

abbrev waiting : List QueuedJob
waiting = table

-- Two ticks that overlap, at a limit of one.
abbrev overlapping : World no_sizes (device false)
overlapping = record { scheduler = fresh_one; ticks = finished ∷ finished ∷ [] }

abbrev turns : List (Event no_sizes (device false))
turns =
    begins 0 waiting
    ∷ begins 1 waiting
    ∷ resumes 0 200
    ∷ resumes 1 200
    ∷ resumes 1 200
    ∷ resumes 1 200
    ∷ resumes 0 200
    ∷ resumes 1 200
    ∷ []

-- The second tick passes the check of the limit while the first waits for its claim, and two jobs run.
limit_exceeded :
    (length ((advance_all no_sizes (device false) turns overlapping).scheduler).tasks ≡ 2)
    × (fresh_one.limit ≡ 1)
unfolding program
limit_exceeded = (refl, refl)

advance_all_bounded_example :
    length ((advance_all no_sizes (device false) turns overlapping).scheduler).tasks
    < fresh_one.limit + 2
advance_all_bounded_example =
    advance_all_bounded no_sizes (device false) turns overlapping (unfold new_scheduler in refl)
      (refl, (refl, tt)) (unfold new_scheduler in omega arith)
