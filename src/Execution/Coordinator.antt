-- ===== src/Execution/Coordinator.antt =====
-- src/mycellm/execution/coordinator.py: `execute`, `_run_direct` and `_run_swarm`, which run a plan.
-- The error texts are data that hold what the texts show.
mod Gather
mod Landing
mod Stream
mod Answers
mod Honesty
mod Streaming
mod Ending
mod Tests
use mycellm.Prelude.{
  ℕ, ◌+◌, Option, none, some, Bool, true, false, List, [], ◌∷◌, map, ltb, length, take, is_nil,
  if◌then◌else◌,
}
use mycellm.Prelude.Text.{Text, is_empty}
use mycellm.Prelude.Sort.{max_from}
use mycellm.Execution.Models.{
  Target, Role, Strategy, direct, replica, swarm, WorkUnit, WorkUnitResult, Job, ExecutionPlan,
  PlanReason, is_ok, synthesizer_of,
}
use mycellm.Execution.Coordinator.Gather.{
  Runner, Arrival, Meta, Proposals, Degradation, one_survived, no_synthesizer, budget_exhausted,
  synthesis_failed, plan_only, safe_run, exhausted, gather_proposals, synthesis_unit_of,
}

pub data JobError : Type 0 where
  plan_refused : List PlanReason → JobError
  no_executable_target no_inference_output no_proposer_output : JobError
  unit_failed : Text → JobError
  every_proposer_failed : List Text → JobError

pub record Outcome : Type 0 where
  pub text : Text
  pub error : Option JobError
  pub prompt_tokens : ℕ
  pub completion_tokens : ℕ
  pub meta : Meta

-- `"; ".join(plan.reasons) or "no executable target"`
unfoldable pub plan_error : List PlanReason → JobError
plan_error reasons = if is_nil reasons then no_executable_target else plan_refused reasons

unfoldable pub failure : JobError → Meta → Outcome
failure e meta = record {
  text = [];
  error = some e;
  prompt_tokens = 0;
  completion_tokens = 0;
  meta = meta;
}

unfoldable pub success : Text → ℕ → ℕ → Meta → Outcome
success text prompt completion meta = record {
  text = text;
  error = none;
  prompt_tokens = prompt;
  completion_tokens = completion;
  meta = meta;
}

unfoldable pub run_direct : Runner → WorkUnit → Outcome
unfolding failure success
run_direct run unit =
    let res = safe_run run unit in
    if is_ok res
    then success res.text res.prompt_tokens res.completion_tokens
        (record plan_only { units_ok = 1; served_by = some res.target })
    else failure (if is_empty res.error then no_inference_output else unit_failed res.error)
        (record plan_only { units_failed = 1 })

-- `"every proposer failed: ..." if failed else "no proposer produced output"`
unfoldable pub proposers_error : List WorkUnitResult → JobError
proposers_error failed =
    if is_nil failed
    then no_proposer_output
    else every_proposer_failed (map (λ r. take 120 r.error) failed)

-- `max(good, key=lambda r: len(r.text))`
unfoldable pub longest : WorkUnitResult → List WorkUnitResult → WorkUnitResult
longest = max_from (λ y best. ltb (length best.text) (length y.text))

abbrev pub degrade_by : Degradation → Meta → Meta
degrade_by d meta = record meta { degraded = true; degradation = some d }

unfoldable pub salvage : WorkUnitResult → List WorkUnitResult → ℕ → Meta → Outcome
unfolding longest success
salvage r rs spent meta = success (longest r rs).text 0 spent meta

unfoldable pub finish_synthesis :
    WorkUnitResult → WorkUnitResult → List WorkUnitResult → ℕ → Meta → Outcome
unfolding salvage success
finish_synthesis synth r rs spent meta =
    if is_ok synth
    then success synth.text synth.prompt_tokens (spent + synth.completion_tokens) (record meta {
      synthesized_by = some synth.target;
      completion_tokens_spent = spent + synth.completion_tokens;
    })
    else salvage r rs spent (degrade_by (synthesis_failed (take 120 synth.error)) meta)

unfoldable pub merge :
    Runner → Job → ℕ → Option WorkUnit → WorkUnitResult → List WorkUnitResult → ℕ → Meta → Outcome
unfolding salvage finish_synthesis
merge run job budget none r rs spent meta = salvage r rs spent (degrade_by no_synthesizer meta)
merge run job budget (some template) r rs spent meta =
    if exhausted budget spent
    then salvage r rs spent (record meta { degradation = some budget_exhausted })
    else finish_synthesis (safe_run run (synthesis_unit_of template job (r ∷ rs))) r rs spent meta

unfoldable pub settle_swarm :
    Runner
    → Job
    → ℕ
    → Option WorkUnit
    → List WorkUnitResult
    → List WorkUnitResult
    → ℕ
    → Meta
    → Outcome
unfolding failure success merge proposers_error
settle_swarm run job budget template [] failed spent meta = failure (proposers_error failed) meta
settle_swarm run job budget template (r ∷ []) failed spent meta =
    success r.text r.prompt_tokens r.completion_tokens (degrade_by one_survived meta)
settle_swarm run job budget template (r ∷ (s ∷ rs)) failed spent meta =
    merge run job budget template r (s ∷ rs) spent meta

unfoldable pub run_swarm {ℓ} :
    {R : Type ℓ} → Runner → Job → ExecutionPlan R → List Arrival → Outcome
unfolding settle_swarm
run_swarm run job plan arrivals =
    let p = gather_proposals run plan arrivals in
    settle_swarm run job plan.token_budget (synthesizer_of plan) p.good p.failed p.spent p.meta

-- `plan.strategy is Strategy.SWARM`
unfoldable pub is_swarm : Strategy → Bool
is_swarm swarm = true
is_swarm Strategy.direct = false
is_swarm replica = false

unfoldable pub run_units {ℓ} :
    {R : Type ℓ} → Runner → Job → ExecutionPlan R → List Arrival → List WorkUnit → Outcome
unfolding failure plan_error run_direct run_swarm is_swarm
run_units run job plan arrivals [] = failure (plan_error plan.reasons) plan_only
run_units run job plan arrivals (u ∷ us) =
    if is_swarm plan.strategy then run_swarm run job plan arrivals else run_direct run u

unfoldable pub execute {ℓ} : {R : Type ℓ} → Runner → Job → ExecutionPlan R → List Arrival → Outcome
unfolding run_units
execute run job plan arrivals = run_units run job plan arrivals plan.units
