-- ===== src/Execution/Coordinator/Gather.antt =====
-- src/mycellm/execution/coordinator.py: how a unit runs, and the fan-out to the proposers.
-- The runner, which does the inference, is a parameter: what it returns or raises for a unit. The
-- order in which the proposers land, and how many are still running when one lands, are chosen by
-- the environment, as a list of arrivals. Elapsed times are left out.
use mycellm.Prelude.{
  ℕ, ◌+◌, Option, none, Bool, true, false, ◌&&◌, ◌||◌, List, [], ◌∷◌, ◌++◌, map, ltb, leb, negb,
  length, take, filter, is_nil, if◌then◌else◌,
}
use mycellm.Prelude.Text.{Text, codes, strip, join, decimal}
use mycellm.Execution.Models.{
  Target, synthesizer, WorkUnit, WorkUnitResult, Job, ExecutionPlan, is_ok, proposers, prompt_text,
  plain,
}

-- What a call of the runner comes to.
pub data RunnerOutcome : Type 0 where
  returned : WorkUnitResult → RunnerOutcome
  returned_nothing was_cancelled : RunnerOutcome
  raised : Text → RunnerOutcome

abbrev pub Runner : Type 0
Runner = WorkUnit → RunnerOutcome

failed_result : WorkUnit → Text → Bool → WorkUnitResult
failed_result u e c = record {
  unit_id = u.unit_id;
  role = u.role;
  target = u.target;
  text = [];
  error = e;
  prompt_tokens = 0;
  completion_tokens = 0;
  cancelled = c;
}

result_of : WorkUnit → RunnerOutcome → WorkUnitResult
unfolding failed_result
result_of u (returned r) = r
result_of u returned_nothing = failed_result u (codes "runner returned nothing") false
result_of u was_cancelled = failed_result u [] true
result_of u (raised e) = failed_result u e false

unfoldable pub safe_run : Runner → WorkUnit → WorkUnitResult
unfolding result_of
safe_run run u = result_of u (run u)

-- A proposer's task that is done, and the number of tasks that are not.
pub record Arrival : Type 0 where
  pub unit : WorkUnit
  pub running : ℕ

-- The report of `on_result` on a result.
pub record Note : Type 0 where
  pub target : Target
  pub ok : Bool
  pub done : ℕ
  pub total : ℕ

pub record Landed : Type 0 where
  pub results : List WorkUnitResult
  pub notes : List Note
  pub spent : ℕ
  pub cancelled_for_budget : ℕ

-- `budget and spent >= budget`
unfoldable pub exhausted : ℕ → ℕ → Bool
exhausted budget spent = ltb 0 budget && leb budget spent

-- The loop over `as_completed`, which stops at the first result that reaches the budget.
unfoldable pub land : Runner → ℕ → ℕ → List Arrival → Landed → Landed
unfolding exhausted safe_run
land run budget total [] acc = acc
land run budget total (a ∷ more) acc =
    let res = safe_run run a.unit in
    let results = acc.results ++ res ∷ [] in
    let spent = acc.spent + res.completion_tokens in
    let next : Landed = record {
      results = results;
      notes =
          acc.notes
          ++ record { target = res.target; ok = is_ok res; done = length results; total = total }
            ∷ [];
      spent = spent;
      cancelled_for_budget = acc.cancelled_for_budget;
    } in
    let rest = land run budget total more next in
    if exhausted budget spent
    then record next { cancelled_for_budget = next.cancelled_for_budget + a.running }
    else rest

abbrev pub nothing_landed : Landed
nothing_landed = record { results = []; notes = []; spent = 0; cancelled_for_budget = 0 }

-- The text of `meta["degradation"]`.
pub data Degradation : Type 0 where
  one_survived no_synthesizer budget_exhausted no_output : Degradation
  synthesis_failed stream_broke : Text → Degradation

-- `meta`, less the plan's own dict, which is the plan; an absent count is 0.
pub record Meta : Type 0 where
  pub units_ok : ℕ
  pub units_failed : ℕ
  pub proposers_planned : ℕ
  pub completion_tokens_spent : ℕ
  pub cancelled_for_budget : ℕ
  pub failures : List (Target × Text)
  pub degraded : Bool
  pub degradation : Option Degradation
  pub served_by : Option Target
  pub synthesized_by : Option Target
  pub proposals : List Note

abbrev pub plan_only : Meta
plan_only = record {
  units_ok = 0;
  units_failed = 0;
  proposers_planned = 0;
  completion_tokens_spent = 0;
  cancelled_for_budget = 0;
  failures = [];
  degraded = false;
  degradation = none;
  served_by = none;
  synthesized_by = none;
  proposals = [];
}

pub record Proposals : Type 0 where
  pub good : List WorkUnitResult
  pub failed : List WorkUnitResult
  pub meta : Meta
  pub spent : ℕ
  pub notes : List Note

unfoldable pub summary : ℕ → Landed → Proposals
summary planned l =
    let good = filter is_ok l.results in
    let failed = filter (λ r. negb (is_ok r) && negb r.cancelled) l.results in
    record {
      good = good;
      failed = failed;
      meta = record plan_only {
        units_ok = length good;
        units_failed = length failed;
        proposers_planned = planned;
        completion_tokens_spent = l.spent;
        cancelled_for_budget = l.cancelled_for_budget;
        failures = map (λ r. (r.target, take 200 r.error)) failed;
        degraded = ltb 0 l.cancelled_for_budget || negb (is_nil failed);
      };
      spent = l.spent;
      notes = l.notes;
    }

unfoldable pub gather_proposals {ℓ} :
    {R : Type ℓ} → Runner → ExecutionPlan R → List Arrival → Proposals
unfolding land summary
gather_proposals run plan arrivals =
    let planned = length (proposers plan) in
    summary planned (land run plan.token_budget planned arrivals nothing_landed)

abbrev newline : Text
newline = 10 ∷ []

answer_blocks : ℕ → List WorkUnitResult → List Text
answer_blocks i [] = []
answer_blocks i (r ∷ rs) =
    (codes "[Answer " ++ (decimal (i + 1) ++ (codes "]" ++ (newline ++ strip r.text))))
    ∷ answer_blocks (i + 1) rs

abbrev pub synthesis_system : Text
synthesis_system =
    codes
      "You are given several independent answers to the same question, produced by different models. Some may be wrong. Produce one best answer."
    ++ (newline
        ++ (codes "- Prefer claims that several answers agree on."
            ++ (newline
                ++ (codes "- Where they conflict, decide which is better supported and use it."
                    ++ (newline
                        ++ (codes
                              "- Do not mention the answers, the models, or that you are merging."
                            ++ (newline ++ codes "- Answer the original question directly.")))))))

synthesis_prompt : Text → Text → Text
synthesis_prompt question blocks =
    codes "Question:"
    ++ (newline
        ++ (question
            ++ (newline
                ++ (newline
                    ++ (blocks
                        ++ (newline ++ (newline ++ codes "Now give the single best answer.")))))))

unfoldable pub synthesis_unit_of : WorkUnit → Job → List WorkUnitResult → WorkUnit
unfolding answer_blocks synthesis_prompt
synthesis_unit_of template job good =
    let blocks = join (newline ++ newline) (answer_blocks 0 good) in
    record {
      unit_id = template.unit_id;
      role = synthesizer;
      target = template.target;
      messages =
          record { role = "system"; content = plain synthesis_system }
          ∷ record { role = "user"; content = plain (synthesis_prompt (prompt_text job) blocks) }
          ∷ [];
      temperature = template.temperature;
      max_tokens = template.max_tokens;
      depends_on = [];
    }
