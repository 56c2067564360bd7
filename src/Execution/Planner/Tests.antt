-- ===== src/Execution/Planner/Tests.antt =====
-- Runs of the planner of src/mycellm/execution/planner.py, and its theorems at these inputs.
use mathlib.Core.Option
use mycellm.Prelude.{
  ◌≡◌, ◌⊎◌, refl, true, false, some, List, [], ◌∷◌, ◌++◌, String, any, All, map, filter, take,
}
use mycellm.Prelude.Sort.{sort_by}
use mycellm.Privacy.{scan_sensitive, scan_with_policy, is_high, trusted}
use mycellm.Execution.Models.{
  Job, swarm, direct, prompt_text, is_remote, proposers, can, role_value,
}
use mycellm.Execution.Policy.{decide, new_policy, requested_trust}
use mycellm.Execution.Policy.Safety.{may_pass, shares_network}
use mycellm.Execution.Policy.Samples.{
  key_finder, secret, laptop, home_peer, public_peer, fleet, question,
}
use mycellm.Execution.Planner.{
  Plan, screen, plan, policy_of, plan_direct, plan_swarm, plan_eligible, with_swarm, dispatch,
  comes_first, is_swarm_request, strategy_of, eligible_for, wanted, degrade, empty_reason,
}
use mycellm.Execution.Planner.Selection.{pick_proposers, pick_synthesizer}
use mycellm.Execution.Planner.Safety.{plan-may_pass, plan-keeps_secrets}
use mycellm.Execution.Planner.Shape.{IsSwarm, plan-IsSwarm}
use mycellm.Execution.Planner.Preference.{IsBest, plan-IsDirectPlan}
use mycellm.Execution.Planner.Diversity.{new_models, models-pick_proposers}

program : Unit {0}
unfolding plan policy_of screen plan_eligible dispatch plan_direct plan_swarm with_swarm comes_first
    strategy_of eligible_for wanted degrade empty_reason pick_proposers pick_synthesizer decide
    new_policy scan_with_policy scan_sensitive prompt_text proposers can role_value sort_by
program = tt

-- The plan, or one with no units where none is made.
abbrev planned : Job → Plan
planned job = Option.get_or (plan key_finder job fleet false) (record {
  job_id = "";
  strategy = direct;
  units = [];
  reasons = [];
  rejected = [];
  token_budget = 0;
})

abbrev asks_swarm : Job
asks_swarm = question "mycellm/swarm" "" secret

abbrev asks_one : Job
asks_one = question "" " Trusted" secret

swarm_made : plan key_finder asks_swarm fleet false ≡ some (planned asks_swarm)
unfolding program
swarm_made = refl

one_made : plan key_finder asks_one fleet false ≡ some (planned asks_one)
unfolding program
one_made = refl

swarm_targets : map (λ u. u.target) (planned asks_swarm).units ≡ laptop ∷ home_peer ∷ home_peer ∷ []
unfolding program
swarm_targets = refl

one_target : map (λ u. u.target) (planned asks_one).units ≡ laptop ∷ []
unfolding program
one_target = refl

plan-may_pass_example :
    All
      (λ u.
        may_pass
          (policy_of key_finder asks_swarm false)
          (scan_sensitive key_finder (prompt_text asks_swarm))
          u.target
        ≡ true)
      (planned asks_swarm).units
plan-may_pass_example =
    plan-may_pass key_finder asks_swarm fleet false (planned asks_swarm) swarm_made

has_secret : any is_high (scan_sensitive key_finder (prompt_text asks_swarm)) ≡ true
unfolding program
has_secret = refl

plan-keeps_secrets_example :
    All
      (λ u. (is_remote u.target ≡ false) ⊎ (shares_network asks_swarm.network_ids u.target ≡ true))
      (planned asks_swarm).units
plan-keeps_secrets_example =
    plan-keeps_secrets key_finder asks_swarm fleet false (planned asks_swarm) swarm_made refl
      has_secret

asks_trusted : requested_trust asks_one.trust ≡ some trusted
unfolding requested_trust
asks_trusted = refl

swarm_strategy : (planned asks_swarm).strategy ≡ swarm
unfolding program
swarm_strategy = refl

plan-IsSwarm_example : ((planned asks_swarm).units ≡ []) ⊎ IsSwarm (planned asks_swarm)
plan-IsSwarm_example =
    plan-IsSwarm key_finder asks_swarm fleet false (planned asks_swarm) swarm_made swarm_strategy

no_swarm : is_swarm_request asks_one.model ≡ false
unfolding is_swarm_request
no_swarm = refl

plan-IsDirectPlan_example :
    let passing =
      filter
        (may_pass
          (policy_of key_finder asks_one false)
          (scan_sensitive key_finder (prompt_text asks_one)))
        fleet in
    ((passing ≡ []) × ((planned asks_one).units ≡ [])) ⊎ IsBest passing (planned asks_one)
plan-IsDirectPlan_example =
    plan-IsDirectPlan key_finder asks_one fleet false (planned asks_one) one_made no_swarm

merged : pick_synthesizer fleet (laptop ∷ public_peer ∷ []) ≡ some public_peer
unfolding pick_synthesizer
merged = refl

models-pick_proposers_example :
    (rest : List String) × (map (λ t. t.model) (pick_proposers fleet 2)
      ≡ take 2 (new_models [] fleet) ++ rest)
models-pick_proposers_example = models-pick_proposers fleet 2
