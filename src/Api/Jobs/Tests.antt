-- ===== src/Api/Jobs/Tests.antt =====
-- Runs of the handlers of src/mycellm/api/jobs.py, and its theorems at these inputs.
use mathlib.Core.Option
use mycellm.Prelude.{ℕ, ◌+◌, ◌≡◌, refl, String, some, true, [], ◌∷◌}
use mycellm.Prelude.Text.{codes}
use mycellm.Execution.Models.{plain}
use mycellm.Execution.Queue.Row.{cancelled, QueuedJob, Rows, new_job}
use mycellm.Execution.Queue.{get, position}
use mycellm.Accounting.Ledger.{
  Ledger, account_of, balance_of, ensure_account, credit_account, debit_account,
}
use mycellm.Accounting.Tracker.Payment.{Open}
use mycellm.Execution.Scheduler.Payback.{wealth}
use mycellm.Api.Jobs.{
  Node, Request, refused, accepted, insufficient_credits, tier_with_model, unknown_tier, submit_job,
  cancel_job, cancellation,
}
use mycellm.Api.Jobs.Conservation.{Conserves, Untouched, submit_job-Conserves}
use mycellm.Api.Jobs.Cancelling.{cancel_job_lem}

program : Unit {0}
unfolding submit_job cancel_job balance_of ensure_account get new_job credit_account debit_account
    position
program = tt

abbrev ask : String → String → ℕ → Request
ask model tier stake = record {
  job_id = "j1";
  tx = "t1";
  now = 500;
  body = record {
    messages = record { role = "user"; content = plain (codes "hi") } ∷ [];
    model = model;
    min_tier = tier;
    trust = "";
    temperature = 70;
    max_tokens = 256;
    token_budget = 0;
    fanout = 0;
    stake = stake;
    ttl_s = 60;
  };
}

abbrev credits : Ledger
credits = ensure_account "me" 100 "" (record { accounts = []; transactions = []; receipts = [] })

abbrev home : Node
home = record { peer_id = "me"; queue = some []; ledger = some credits }

takes_place : (submit_job (ask " Auto " " FAST" 40) home).1 ≡ accepted "j1" 1 560 40
unfolding program
takes_place = refl

pays_for_it : Option.map (balance_of "me" "") ((submit_job (ask "" "" 40) home).0).ledger ≡ some 60
unfolding program
pays_for_it = refl

too_much : (submit_job (ask "" "" 101) home).1 ≡ refused (insufficient_credits 101 100)
unfolding program
too_much = refl

not_both : (submit_job (ask "qwen" "fast" 0) home).1 ≡ refused tier_with_model
unfolding program
not_both = refl

no_such_tier : (submit_job (ask "" "Huge" 0) home).1 ≡ refused (unknown_tier (codes "huge"))
unfolding program
no_such_tier = refl

submit_job-Conserves_example :
    Conserves
      (ask "" "fast" 40)
      home
      []
      credits
      refl
      refl
      refl
      ((submit_job (ask "" "fast" 40) home).0)
    × Untouched home (submit_job (ask "" "fast" 40) home)
submit_job-Conserves_example =
    submit_job-Conserves (ask "" "fast" 40) home [] credits refl refl refl

abbrev waiting_job : QueuedJob
waiting_job = new_job "me" "j1" 500 (record {
  messages = [];
  owner_id = "me";
  model = "";
  min_tier = "";
  trust = "";
  temperature = 70;
  max_tokens = 256;
  token_budget = 0;
  fanout = 0;
  stake = 40;
  ttl_s = 60;
})

abbrev one_job : Rows
one_job = waiting_job ∷ []

abbrev queueing : Node
queueing = record { peer_id = "me"; queue = some one_job; ledger = some credits }

job_here : get "j1" one_job ≡ some waiting_job
unfolding program
job_here = refl

account : Open "me" "" credits.accounts
unfolding program account_of
account = (_, refl)

cancel_job_lem_example :
    let (node', a) = cancel_job "j1" 510 "t2" queueing in
    (rows' : Rows) × (l' : Ledger) × (node'.queue ≡ some rows')
    × (node'.ledger ≡ some l')
    × ((r : QueuedJob) × (get "j1" rows' ≡ some r) × (r.state ≡ cancelled) × (r.stake ≡ 40))
    × (a ≡ cancellation true 40)
    × (wealth "me" rows' l' + 0 ≡ wealth "me" one_job credits)
unfolding program
cancel_job_lem_example =
    cancel_job_lem "j1" 510 "t2" one_job credits waiting_job job_here queueing refl refl (tt, tt)
      account refl
