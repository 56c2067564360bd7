-- ===== src/Execution/Queue/Row.antt =====
-- src/mycellm/execution/queue.py: the row of a job, its states, and its place in the order.
-- Times are seconds and stakes are credits. The reasons that a person reads are data that hold
-- what the texts show.
use mycellm.Prelude.{
  ℕ, ◌+◌, ◌-◌, ◌*◌, String, Option, Bool, true, false, ◌&&◌, ◌||◌, List, [], eqb, ltb, negb, ◌==◌,
  if◌then◌else◌,
}
use mycellm.Prelude.Text.{Text}
use mycellm.Execution.Models.{Job, Message}

pub data JobState : Type 0 where
  queued running done failed expired cancelled : JobState

unfoldable pub terminal : JobState → Bool
terminal queued = false
terminal running = false
terminal done = true
terminal failed = true
terminal expired = true
terminal cancelled = true

abbrev pub is_queued : JobState → Bool
is_queued queued = true
is_queued running = false
is_queued done = false
is_queued failed = false
is_queued expired = false
is_queued cancelled = false

abbrev pub is_running : JobState → Bool
is_running running = true
is_running queued = false
is_running done = false
is_running failed = false
is_running expired = false
is_running cancelled = false

-- Why a job waits; `no_reason` is the empty text.
pub data WaitingReason : Type 0 where
  no_reason low_power throttled no_node no_swarm no_match interrupted_retry interrupted_run :
      WaitingReason
  busy : ℕ → WaitingReason
  no_tier : String → ℕ → WaitingReason
  not_serving : String → WaitingReason

-- The texts of `error`.
pub data FailureText : Type 0 where
  no_failure deadline_passed : FailureText
  failed_with : Text → FailureText

-- A unit's dict in the plan's record: its role, its target as text and its model.
pub record UnitRecord : Type 0 where
  pub role : String
  pub target : Text
  pub model : String

pub record QueuedJob : Type 0 where
  pub job_id : String
  pub messages : List Message
  pub owner_id : String
  pub model : String
  pub min_tier : String
  pub trust : String
  pub temperature : ℕ
  pub max_tokens : ℕ
  pub token_budget : ℕ
  pub fanout : ℕ
  pub state : JobState
  pub stake : ℕ
  pub waiting_reason : WaitingReason
  pub created_at : ℕ
  pub updated_at : ℕ
  pub started_at : ℕ
  pub finished_at : ℕ
  pub expires_at : ℕ
  pub attempts : ℕ
  pub result_text : Text
  pub error : FailureText
  pub served_by : Text
  pub served_model : String
  pub meta : List UnitRecord

abbrev pub Rows : Type 0
Rows = List QueuedJob

unfoldable pub age_s : QueuedJob → ℕ → ℕ
age_s job now = now - job.created_at

-- `stake + AGE_BONUS_PER_HOUR * (age / 3600)`, in units of 1/3600.
unfoldable pub priority : QueuedJob → ℕ → ℕ
unfolding age_s
priority job now = 3600 * job.stake + 10 * age_s job now

unfoldable pub to_job : QueuedJob → Option (List String) → Job
to_job job networks = record {
  job_id = job.job_id;
  model = job.model;
  messages = job.messages;
  temperature = job.temperature;
  max_tokens = job.max_tokens;
  network_ids = networks;
  token_budget = job.token_budget;
  trust = job.trust;
  fanout = job.fanout;
}

-- The first component of `sort_key`.
unfoldable pub own_class : String → QueuedJob → ℕ
own_class owner job =
    if negb (owner == "") && job.owner_id == owner || job.owner_id == "" then 0 else 1

-- The first sorts strictly before the second by `sort_key`.
unfoldable pub sorts_before : String → ℕ → QueuedJob → QueuedJob → Bool
unfolding own_class priority
sorts_before owner now x y =
    ltb (own_class owner x) (own_class owner y)
    || eqb (own_class owner x) (own_class owner y)
      && (ltb (priority y now) (priority x now)
          || eqb (priority y now) (priority x now) && ltb x.created_at y.created_at)

pub record Submission : Type 0 where
  pub messages : List Message
  pub owner_id : String
  pub model : String
  pub min_tier : String
  pub trust : String
  pub temperature : ℕ
  pub max_tokens : ℕ
  pub token_budget : ℕ
  pub fanout : ℕ
  pub stake : ℕ
  pub ttl_s : ℕ

unfoldable pub new_job : String → String → ℕ → Submission → QueuedJob
new_job owner id now s = record {
  job_id = id;
  messages = s.messages;
  owner_id = if s.owner_id == "" then owner else s.owner_id;
  model = s.model;
  min_tier = s.min_tier;
  trust = s.trust;
  temperature = s.temperature;
  max_tokens = s.max_tokens;
  token_budget = s.token_budget;
  fanout = s.fanout;
  state = queued;
  stake = s.stake;
  waiting_reason = no_reason;
  created_at = now;
  updated_at = now;
  started_at = 0;
  finished_at = 0;
  expires_at = if ltb 0 s.ttl_s then now + s.ttl_s else 0;
  attempts = 0;
  result_text = [];
  error = no_failure;
  served_by = [];
  served_model = "";
  meta = [];
}
