-- ===== src/Api/Jobs.antt =====
-- src/mycellm/api/jobs.py: submitting, reading and cancelling jobs. An answer is the data that its
-- body shows. A handler is one call: what others do between its awaits is left out. The nudge that a
-- submission gives the scheduler is a tick, which src/mycellm/execution/scheduler.py has.
-- A stake is a natural number, so one below zero is zero already.
mod Conservation
mod Cancelling
mod Tests
use mycellm.Prelude.{
  ℕ, String, Option, none, some, Bool, true, false, ◌&&◌, ◌||◌, List, [], ◌∷◌, ltb, negb, is_nil,
  ◌==◌, if◌then◌else◌,
}
use mycellm.Prelude.Text.{Text, codes, strip, strip_string, lower, text_eq}
use mycellm.Execution.Models.{Message}
use mycellm.Execution.Queue.Row.{
  JobState, terminal, is_queued, QueuedJob, Rows, Submission, new_job,
}
use mycellm.Execution.Queue.{submit, cancel, get, position}
use mycellm.Accounting.Ledger.{
  Ledger, balance_of, credit_account, debit_account, Memo, queue_stake, stake_refund,
}

pub record SubmitJobRequest : Type 0 where
  pub messages : List Message
  pub model : String
  pub min_tier : String
  pub trust : String
  pub temperature : ℕ
  pub max_tokens : ℕ
  pub token_budget : ℕ
  pub fanout : ℕ
  pub stake : ℕ
  pub ttl_s : ℕ

-- The node: `queue` is `none` where the queue is not enabled.
pub record Node : Type 0 where
  pub peer_id : String
  pub queue : Option Rows
  pub ledger : Option Ledger

pub data Refusal : Type 0 where
  queue_disabled messages_required tier_with_model not_found : Refusal
  unknown_tier : Text → Refusal
  insufficient_credits : ℕ → ℕ → Refusal
  already : JobState → Refusal

pub data Submitted : Type 0 where
  refused : Refusal → Submitted
  accepted : String → ℕ → ℕ → ℕ → Submitted

-- The keys of `TIER_RANK`.
unfoldable pub known_tier : Text → Option String
unfolding text_eq
known_tier t =
    if text_eq t (codes "frontier")
    then some "frontier"
    else if text_eq t (codes "capable")
    then some "capable"
    else if text_eq t (codes "fast")
    then some "fast"
    else if text_eq t (codes "tiny")
    then some "tiny"
    else none

-- The tier that a request asks for, or a text that is none of them.
pub data Floor : Type 0 where
  no_floor : Floor
  floor : String → Floor
  bad_floor : Text → Floor

unfoldable pub read_floor : String → Floor
unfolding known_tier lower strip
read_floor s = elim (lower (strip (codes s))) [
  | [] ↦ no_floor
  | c ∷ cs ↦ elim (known_tier (c ∷ cs)) [ none ↦ bad_floor (c ∷ cs) | some t ↦ floor t ]
]

-- `auto` and `default` name no model.
unfoldable pub read_model : String → String
unfolding strip_string lower text_eq
read_model s =
    let model = strip_string s in
    let name = lower (codes model) in
    if text_eq name (codes "auto") || text_eq name (codes "default") then "" else model

-- The stake that a job gets, with the ledger after it is taken.
pub data Stake : Type 0 where
  staked : ℕ → Option Ledger → Stake
  too_poor : ℕ → Stake

abbrev pub stake_memo : String → Memo
stake_memo tx = record {
  tx_id = tx;
  reason = queue_stake;
  counterparty_id = "";
  receipt_signature = [];
}

unfoldable pub take_stake : String → ℕ → String → Option Ledger → Stake
unfolding balance_of debit_account
take_stake owner stake tx none = staked stake none
take_stake owner stake tx (some l) =
    if ltb 0 stake
    then if ltb (balance_of owner "" l) stake
      then too_poor (balance_of owner "" l)
      else elim (debit_account owner "" stake (stake_memo tx) l) [
        | none ↦ staked 0 (some l)
        | some l' ↦ staked stake (some l')
      ]
    else staked stake (some l)

unfoldable pub submission : String → String → String → SubmitJobRequest → ℕ → Submission
submission owner model min_tier body stake = record {
  messages = body.messages;
  owner_id = owner;
  model = model;
  min_tier = min_tier;
  trust = body.trust;
  temperature = body.temperature;
  max_tokens = body.max_tokens;
  token_budget = body.token_budget;
  fanout = body.fanout;
  stake = stake;
  ttl_s = body.ttl_s;
}

-- What a handler of submissions has when the request is read.
pub record Request : Type 0 where
  pub job_id : String
  pub tx : String
  pub now : ℕ
  pub body : SubmitJobRequest

unfoldable pub enqueue : Request → String → String → Rows → Node → Stake → Node × Submitted
unfolding submit submission position new_job
enqueue q model min_tier rows node (too_poor balance) =
    (node, refused (insufficient_credits q.body.stake balance))
enqueue q model min_tier rows node (staked stake ledger) =
    let s = submission node.peer_id model min_tier q.body stake in
    let job = new_job node.peer_id q.job_id q.now s in
    let rows' = submit node.peer_id q.job_id q.now s rows in
    (
      record node { queue = some rows'; ledger = ledger },
      accepted q.job_id (position node.peer_id q.now q.job_id rows') job.expires_at job.stake,
    )

unfoldable pub submit_floor : Request → String → Rows → Node → Floor → Node × Submitted
unfolding enqueue take_stake
submit_floor q model rows node (bad_floor t) = (node, refused (unknown_tier t))
submit_floor q model rows node no_floor =
    enqueue q model "" rows node (take_stake node.peer_id q.body.stake q.tx node.ledger)
submit_floor q model rows node (floor t) =
    if negb (model == "")
    then (node, refused tier_with_model)
    else enqueue q model t rows node (take_stake node.peer_id q.body.stake q.tx node.ledger)

unfoldable pub submit_into : Request → Node → Option Rows → Node × Submitted
unfolding submit_floor read_floor read_model
submit_into q node none = (node, refused queue_disabled)
submit_into q node (some rows) =
    if is_nil q.body.messages
    then (node, refused messages_required)
    else submit_floor q (read_model q.body.model) rows node (read_floor q.body.min_tier)

unfoldable pub submit_job : Request → Node → Node × Submitted
unfolding submit_into
submit_job q node = submit_into q node node.queue

pub data Cancelled : Type 0 where
  not_cancelled : Refusal → Cancelled
  cancellation : Bool → ℕ → Cancelled

abbrev pub cancel_memo : String → Memo
cancel_memo tx = record {
  tx_id = tx;
  reason = stake_refund "cancelled";
  counterparty_id = "";
  receipt_signature = [];
}

-- A job that waited gets its stake back.
unfoldable pub return_stake : String → Bool → QueuedJob → Option Ledger → Option Ledger × ℕ
unfolding credit_account
return_stake tx done job none = (none, 0)
return_stake tx done job (some l) =
    if done && (ltb 0 job.stake && is_queued job.state)
    then (some (credit_account job.owner_id "" job.stake (cancel_memo tx) l), job.stake)
    else (some l, 0)

unfoldable pub cancel_found :
    String → ℕ → String → Rows → Node → Option QueuedJob → Node × Cancelled
unfolding terminal cancel return_stake
cancel_found id now tx rows node none = (node, not_cancelled not_found)
cancel_found id now tx rows node (some job) =
    let (rows', done) = cancel id now rows in
    let (ledger, refunded) = return_stake tx done job node.ledger in
    if terminal job.state
    then (node, not_cancelled (already job.state))
    else (record node { queue = some rows'; ledger = ledger }, cancellation done refunded)

unfoldable pub cancel_in : String → ℕ → String → Node → Option Rows → Node × Cancelled
unfolding cancel_found get
cancel_in id now tx node none = (node, not_cancelled queue_disabled)
cancel_in id now tx node (some rows) = cancel_found id now tx rows node (get id rows)

unfoldable pub cancel_job : String → ℕ → String → Node → Node × Cancelled
unfolding cancel_in
cancel_job id now tx node = cancel_in id now tx node node.queue
