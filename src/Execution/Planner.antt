-- ===== src/Execution/Planner.antt =====
-- src/mycellm/execution/planner.py: from a job and its candidate targets to an execution plan.
-- `none` stands for the exceptions that indexing and `max` raise on an empty list.
pub mod Selection
pub mod Rounds
pub mod Shape
pub mod Preference
pub mod Total
mod Tests
pub mod Safety
pub mod Egress
pub mod Diversity
pub mod Draw
use mycellm.Prelude.{
  ℕ, zero, suc, ◌+◌, ◌-◌, ◌*◌, min, max, String, Bool, true, false, ◌&&◌, ◌||◌, Option, none, some,
  List, [], ◌∷◌, ◌++◌, map, ltb, eqb, negb, length, filter, any, if◌then◌else◌,
}
use mycellm.Prelude.Sort.{sort_by}
use mycellm.Prelude.Text.{codes, strip, lower, text_eq}
use mycellm.Privacy.{Finder, scan_with_policy}
use mycellm.Execution.Models.{
  Strategy, direct, replica, swarm, Role, proposer, synthesizer, role_value, role_eq, Target, can,
  is_remote, member, UnitId, direct_id, proposer_id, synthesis_id, WorkUnit, Job, prompt_text,
  PlanReason, warned_target, no_eligible_target, all_refused, direct_to, local_available,
  fallback_targets, undeclared_proposers, degraded_to_direct, swarm_of, one_model_only,
  ExecutionPlan, proposers,
}
use mycellm.Execution.Policy.{
  EgressReason, allowed_with_warning, EgressDecision, EgressPolicy, new_policy, decide,
}
use mathlib.Core.Option
use Selection.{or_list, pick_proposers, pick_synthesizer}

abbrev pub default_fanout : ℕ
default_fanout = 3

abbrev pub max_fanout : ℕ
max_fanout = 8

unfoldable pub is_swarm_request : String → Bool
unfolding strip lower text_eq
is_swarm_request model = text_eq (lower (strip (codes model))) (codes "mycellm/swarm")

abbrev pub Plan : Type 0
Plan = ExecutionPlan EgressReason

-- `"warning" in decision.reason`
abbrev pub mentions_warning : EgressReason → Bool
mentions_warning (allowed_with_warning s) = true
mentions_warning _ = false

-- What the loop over the candidates collects.
pub record Screening : Type 0 where
  pub eligible : List Target
  pub reasons : List PlanReason
  pub rejected : List (Target × EgressReason)

unfoldable pub note_decision : Target → EgressDecision → Screening → Screening
note_decision t d s =
    if d.allowed
    then record {
      eligible = t ∷ s.eligible;
      reasons = if mentions_warning d.reason then warned_target t ∷ s.reasons else s.reasons;
      rejected = s.rejected;
    }
    else record s { rejected = (t, d.reason) ∷ s.rejected }

-- The candidates in order; the policy's cache goes from each decision to the next.
unfoldable pub screen : EgressPolicy → List Target → Screening
unfolding decide note_decision
screen p [] = record { eligible = []; reasons = []; rejected = [] }
screen p (t ∷ ts) = let (d, p') = decide p t in note_decision t d (screen p' ts)

-- `(t.is_remote, -t.tok_s)`: local before remote, then the faster.
unfoldable pub comes_first : Target → Target → Bool
comes_first s t =
    if is_remote s then is_remote t && ltb t.tok_s s.tok_s else is_remote t || ltb t.tok_s s.tok_s

-- A model that declares no roles is usable for the generative roles.
unfoldable pub eligible_for : List Target → Role → List Target
unfolding can role_value role_eq
eligible_for targets role =
    filter
      (λ t. elim t.roles [
        | [] ↦ role_eq role Role.direct || (role_eq role proposer || role_eq role synthesizer)
        | r ∷ rs ↦ can t (role_value role)
      ])
      targets

unfoldable pub direct_unit : Job → Target → WorkUnit
direct_unit job t = record {
  unit_id = direct_id job.job_id;
  role = Role.direct;
  target = t;
  messages = job.messages;
  temperature = job.temperature;
  max_tokens = job.max_tokens;
  depends_on = [];
}

direct_reasons : Target → List Target → List PlanReason
direct_reasons t rest =
    direct_to t
    ∷ ((if is_remote t then [] else local_available ∷ [])
        ++ (elim rest [ [] ↦ [] | r ∷ rs ↦ fallback_targets (length (r ∷ rs)) ∷ [] ]))

unfoldable pub plan_direct : Job → Plan → List Target → Option Plan
unfolding direct_unit direct_reasons
plan_direct job plan [] = none
plan_direct job plan (t ∷ rest) = some (record plan {
  units = plan.units ++ direct_unit job t ∷ [];
  reasons = plan.reasons ++ direct_reasons t rest;
})

-- Proposer `i` explores at a temperature 0.15 above that of proposer `i - 1`, up to 1.
unfoldable pub proposer_unit : Job → ℕ → Target → WorkUnit
proposer_unit job i t = record {
  unit_id = proposer_id job.job_id i;
  role = proposer;
  target = t;
  messages = job.messages;
  temperature = min 100 (job.temperature + 15 * i);
  max_tokens = job.max_tokens;
  depends_on = [];
}

unfoldable pub proposer_units : Job → ℕ → List Target → List WorkUnit
unfolding proposer_unit
proposer_units job i [] = []
proposer_units job i (t ∷ ts) = proposer_unit job i t ∷ proposer_units job (i + 1) ts

unfoldable pub synthesis_unit : Job → Target → List UnitId → WorkUnit
synthesis_unit job t depends = record {
  unit_id = synthesis_id job.job_id;
  role = synthesizer;
  target = t;
  messages = [];
  temperature = 20;
  max_tokens = job.max_tokens;
  depends_on = depends;
}

distinct : List String → List String
unfolding member
distinct [] = []
distinct (x ∷ xs) = let rest = distinct xs in if member x rest then rest else x ∷ rest

-- `job.fanout or DEFAULT_FANOUT`, clamped to 2 and MAX_FANOUT.
unfoldable pub wanted : Job → ℕ
wanted job = max 2 (min (if eqb job.fanout 0 then default_fanout else job.fanout) max_fanout)

undeclared_reason : List Target → List Target → List PlanReason
undeclared_reason can_propose eligible =
    if ltb (length can_propose) (length eligible)
    then undeclared_proposers (length eligible - length can_propose) ∷ []
    else []

swarm_reasons : List Target → Target → List PlanReason
unfolding distinct
swarm_reasons chosen synth =
    let models = length (distinct (map (λ t. t.model) chosen)) in
    swarm_of (length chosen) models synth ∷ (if eqb models 1 then one_model_only ∷ [] else [])

-- The plan of a swarm whose proposers and synthesizer are chosen.
unfoldable pub with_swarm : Job → Plan → List Target → Target → Plan
unfolding proposer_units synthesis_unit swarm_reasons proposers
with_swarm job plan chosen synth =
    let staged = record plan { units = plan.units ++ proposer_units job 0 chosen } in
    record plan {
      units =
          staged.units ++ synthesis_unit job synth (map (λ u. u.unit_id) (proposers staged)) ∷ [];
      reasons = plan.reasons ++ swarm_reasons chosen synth;
    }

unfoldable pub degrade : Plan → ℕ → Plan
degrade plan n = record plan {
  strategy = direct;
  reasons = plan.reasons ++ degraded_to_direct n ∷ [];
}

add_reasons : Plan → List PlanReason → Plan
add_reasons plan rs = record plan { reasons = plan.reasons ++ rs }

unfoldable pub plan_swarm : Job → Plan → List Target → Option Plan
unfolding add_reasons undeclared_reason
plan_swarm job plan eligible =
    let can_propose = eligible_for eligible proposer in
    let noted = add_reasons plan (undeclared_reason can_propose eligible) in
    let chosen = pick_proposers can_propose (wanted job) in
    if ltb (length chosen) 2
    then plan_direct job (degrade noted (length chosen)) eligible
    else Option.map (with_swarm job noted chosen)
        (pick_synthesizer (or_list (eligible_for eligible synthesizer) eligible) chosen)

unfoldable pub strategy_of : Job → Strategy
unfolding is_swarm_request
strategy_of job = if is_swarm_request job.model then swarm else direct

unfoldable pub dispatch : Job → Strategy → Plan → List Target → Option Plan
dispatch job swarm plan eligible = plan_swarm job plan eligible
dispatch job direct plan eligible = plan_direct job plan eligible
dispatch job replica plan eligible = plan_direct job plan eligible

unfoldable pub start_plan : Job → Screening → Plan
unfolding strategy_of
start_plan job s = record {
  job_id = job.job_id;
  strategy = strategy_of job;
  units = [];
  reasons = s.reasons;
  rejected = s.rejected;
  token_budget = job.token_budget;
}

unfoldable pub empty_reason : List Target → PlanReason
empty_reason [] = no_eligible_target
empty_reason (t ∷ ts) = all_refused

unfoldable pub policy_of : Finder → Job → Bool → EgressPolicy
unfolding prompt_text new_policy scan_with_policy
policy_of finditer job override =
    new_policy (scan_with_policy finditer (prompt_text job)) job.trust job.network_ids override

-- `plan.reasons.append(…); return plan`, or the sort and the strategy.
unfoldable pub plan_eligible : Job → List Target → Plan → List Target → Option Plan
unfolding add_reasons
plan_eligible job candidates start [] = some (add_reasons start (empty_reason candidates ∷ []))
plan_eligible job candidates start (t ∷ ts) =
    dispatch job (strategy_of job) start (sort_by comes_first (t ∷ ts))

unfoldable pub plan : Finder → Job → List Target → Bool → Option Plan
unfolding start_plan
plan finditer job candidates override =
    let s = screen (policy_of finditer job override) candidates in
    plan_eligible job candidates (start_plan job s) s.eligible
