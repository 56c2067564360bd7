-- ===== src/Execution/Coordinator/Tests.antt =====
-- Runs of the coordinator of src/mycellm/execution/coordinator.py, and its theorems at these inputs.
use mycellm.Prelude.{
  ℕ, zero, suc, ◌≤◌, ◌<◌, ◌≡◌, ◌⊎◌, refl, true, false, none, some, List, [], ◌∷◌, ◌||◌, is_nil, any,
  take, filter, length, sum_of, ltb, arith,
}
use mycellm.Prelude.Text.{codes}
use mycellm.Execution.Models.{
  Target, Job, WorkUnit, UnitId, proposer_id, synthesis_id, Role, proposer, synthesizer, swarm,
  ExecutionPlan, is_ok, proposers, synthesizer_of,
}
use mycellm.Execution.Policy.Samples.{laptop, home_peer, public_peer, question}
use mycellm.Execution.Coordinator.Gather.{
  Runner, returned, raised, Arrival, safe_run, exhausted, gather_proposals, synthesis_unit_of,
  budget_exhausted,
}
use mycellm.Execution.Coordinator.{execute}
use mycellm.Execution.Coordinator.Stream.{StreamRunner, broke, execute_stream}
use mycellm.Execution.Coordinator.Landing.{runs, tokens, InOrder, gather_proposals_budget}
use mycellm.Execution.Coordinator.Answers.{Answers, Succeeds, execute-Answers, execute_keeps_work}
use mycellm.Execution.Coordinator.Honesty.{failed_itself, landed, execute_says_degraded}
use mycellm.Execution.Coordinator.Streaming.{
  texts, stream_error, answer_texts, execute_stream-eq-execute,
}
use mycellm.Execution.Coordinator.Ending.{NeverCancelled, OneAnswer, execute_stream-OneAnswer}

program : Unit {0}
unfolding execute gather_proposals is_ok safe_run exhausted proposers synthesizer_of
program = tt

abbrev job : Job
job = question "mycellm/swarm" "" (codes "why")

abbrev unit_on : UnitId → Role → Target → WorkUnit
unit_on i r t = record {
  unit_id = i;
  role = r;
  target = t;
  messages = job.messages;
  temperature = 70;
  max_tokens = 256;
  depends_on = [];
}

abbrev first_proposer : WorkUnit
first_proposer = unit_on (proposer_id "job_1" 0) proposer laptop

abbrev second_proposer : WorkUnit
second_proposer = unit_on (proposer_id "job_1" 1) proposer home_peer

abbrev third_proposer : WorkUnit
third_proposer = unit_on (proposer_id "job_1" 2) proposer public_peer

-- A swarm of three proposers under a token budget.
abbrev swarm_plan : ℕ → ExecutionPlan (Unit {0})
swarm_plan budget = record {
  job_id = "job_1";
  strategy = swarm;
  units =
      first_proposer
      ∷ second_proposer
      ∷ third_proposer
      ∷ unit_on (synthesis_id "job_1") synthesizer home_peer
      ∷ [];
  reasons = [];
  rejected = [];
  token_budget = budget;
}

abbrev steady : Runner
steady u = returned (record {
  unit_id = u.unit_id;
  role = u.role;
  target = u.target;
  text = codes "because";
  error = [];
  prompt_tokens = 10;
  completion_tokens = 50;
  cancelled = false;
})

-- The second proposer raises; the others answer in 50 tokens each.
abbrev runner : Runner
runner u = elim u.unit_id [ proposer_id j (suc zero) ↦ raised (codes "timeout") | _ ↦ steady u ]

-- They land in another order than they were planned.
abbrev arrivals : List Arrival
arrivals =
    record { unit = third_proposer; running = 2 }
    ∷ record { unit = second_proposer; running = 1 }
    ∷ record { unit = first_proposer; running = 0 }
    ∷ []

abbrev broken_stream : StreamRunner
broken_stream =
    some
      (λ u. record { yielded = codes "be" ∷ [] ∷ codes "cause" ∷ []; how = broke (codes "reset") })

-- Where the last proposer to land spends the budget, nothing says that the job is degraded.
silent_degradation :
    ((execute steady job (swarm_plan 150) arrivals).meta.degradation ≡ some budget_exhausted)
    × ((execute steady job (swarm_plan 150) arrivals).meta.degraded ≡ false)
unfolding program
silent_degradation = (refl, refl)

swarm_succeeds : (execute runner job (swarm_plan 0) arrivals).text ≡ codes "because"
unfolding program synthesis_unit_of
swarm_succeeds = refl

execute-Answers_example : Answers (execute runner job (swarm_plan 60) arrivals)
execute-Answers_example = execute-Answers runner job (swarm_plan 60) arrivals

some_good : is_nil (gather_proposals runner (swarm_plan 60) arrivals).good ≡ false
unfolding program
some_good = refl

execute_keeps_work_example : Succeeds (execute runner job (swarm_plan 60) arrivals)
execute_keeps_work_example =
    execute_keeps_work runner job (swarm_plan 60) arrivals (refl, refl) some_good

some_run : any is_ok (runs runner arrivals) ≡ true
unfolding program
some_run = refl

budget_spent : exhausted 60 (gather_proposals runner (swarm_plan 60) arrivals).spent ≡ true
unfolding program
budget_spent = refl

execute_says_degraded_example :
    (((any failed_itself (landed runner job (swarm_plan 60) arrivals).results
          || ltb 0 (landed runner job (swarm_plan 60) arrivals).cancelled_for_budget)
        ≡ true)
      → (execute runner job (swarm_plan 60) arrivals).meta.degraded ≡ true)
    × (((execute runner job (swarm_plan 60) arrivals).meta.degradation ≡ none)
        ⊎ ((execute runner job (swarm_plan 60) arrivals).meta.degraded ≡ true)
        ⊎ ((execute runner job (swarm_plan 60) arrivals).meta.degradation ≡ some budget_exhausted))
execute_says_degraded_example =
    execute_says_degraded runner job (swarm_plan 60) arrivals (refl, refl)

positive : 0 < 60
positive = omega arith

gather_proposals_budget_example :
    (n : ℕ) × (n ≤ 3)
    × ((gather_proposals runner (swarm_plan 60) arrivals).good
        ≡ filter is_ok (take n (runs runner arrivals)))
    × ((gather_proposals runner (swarm_plan 60) arrivals).spent
        ≡ sum_of tokens (take n (runs runner arrivals)))
    × ((m : ℕ) → m < n → sum_of tokens (take m (runs runner arrivals)) < 60)
    × ((n ≡ 3) ⊎ (60 ≤ (gather_proposals runner (swarm_plan 60) arrivals).spent))
gather_proposals_budget_example = gather_proposals_budget runner (swarm_plan 60) arrivals positive

all_planned : length arrivals ≡ length (proposers (swarm_plan 60))
unfolding program
all_planned = refl

in_order : InOrder arrivals
in_order = (omega arith, (omega arith, (omega arith, tt)))

execute_stream-eq-execute_example :
    (texts (execute_stream runner none job (swarm_plan 0) arrivals)
      ≡ answer_texts (execute runner job (swarm_plan 0) arrivals))
    × (stream_error (execute_stream runner none job (swarm_plan 0) arrivals)
        ≡ (execute runner job (swarm_plan 0) arrivals).error)
execute_stream-eq-execute_example = execute_stream-eq-execute runner job (swarm_plan 0) arrivals

not_cancelled : NeverCancelled broken_stream
not_cancelled u h = ground arith

execute_stream-OneAnswer_example :
    OneAnswer broken_stream (execute_stream runner broken_stream job (swarm_plan 0) arrivals)
execute_stream-OneAnswer_example =
    execute_stream-OneAnswer runner broken_stream job (swarm_plan 0) arrivals
