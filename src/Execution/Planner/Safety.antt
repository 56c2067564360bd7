-- ===== src/Execution/Planner/Safety.antt =====
-- The egress guarantees of a finished plan, src/mycellm/execution/planner.py.
use mycellm.Prelude.{
  ◌≡◌, refl, ◌≤◌, ◌⊎◌, leb→le, sym, subst, Bool, true, false, some, List, arith, All, All-imp,
  All-filter_self, any,
}
use mycellm.Privacy.{Finder, Trust, scan_sensitive, is_high}
use mycellm.Execution.Models.{Target, Job, prompt_text, is_remote}
use mycellm.Execution.Policy.{new_policy, trust_for, trust_order, requested_trust}
use mycellm.Execution.Policy.Safety.{Watches, may_pass, meets_ceiling, shares_network}
use mycellm.Execution.Planner.{Plan, screen, plan, policy_of, start_plan}
use mycellm.Execution.Planner.Egress.{of_OnSome, plan_eligible-Sends, screen_lem}

pub policy_of-Watches :
    (f : Finder) (job : Job) (override : Bool)
    → Watches f (prompt_text job) (policy_of f job override)
unfolding policy_of new_policy
policy_of-Watches f job override = record { scan = refl; consistent = λ t r h. cc }

module _ (f : Finder) (job : Job) (candidates : List Target) (override : Bool) (p : Plan)
    (planned : plan f job candidates override ≡ some p) where
  -- Whatever the strategy, every unit of a plan goes to a target that the gate lets the prompt of
  -- the job go to.
  pub plan-may_pass :
      All
        (λ u.
          may_pass (policy_of f job override) (scan_sensitive f (prompt_text job)) u.target ≡ true)
        p.units
  unfolding plan
  plan-may_pass =
      let pol = policy_of f job override in
      let ms = scan_sensitive f (prompt_text job) in
      let P : Target → Type 0 = λ t. may_pass pol ms t ≡ true in
      let s = screen pol candidates in
      let eligible =
        (screen_lem f (prompt_text job) pol candidates (policy_of-Watches f job override)).0 in
      let passes : All P s.eligible =
        subst (All P) (sym eligible) (All-filter_self (may_pass pol ms) candidates) in
      of_OnSome (λ (q : Plan). All (λ u. P u.target) q.units) (plan f job candidates override) p
        (plan_eligible-Sends P job candidates (start_plan job s) s.eligible
          (unfold start_plan in tt) passes)
        planned

  -- With no override, a job whose messages hold a match of high severity gets no unit on a remote
  -- target outside the job's networks.
  pub plan-keeps_secrets :
      override ≡ false
      → any is_high (scan_sensitive f (prompt_text job)) ≡ true
      → All
          (λ u. (is_remote u.target ≡ false) ⊎ (shares_network job.network_ids u.target ≡ true))
          p.units
  plan-keeps_secrets guarded secret =
      All-imp _ _ (λ u passed. passed_with_secret u.target passed) p.units plan-may_pass
    where
      passed_with_secret :
          (t : Target)
          → may_pass (policy_of f job override) (scan_sensitive f (prompt_text job)) t ≡ true
          → (is_remote t ≡ false) ⊎ (shares_network job.network_ids t ≡ true)
      passed_with_secret t h = unfold may_pass policy_of new_policy in ground arith

  -- Every unit goes to a target of at least the trust that the job asks for.
  pub plan-keeps_ceiling :
      (r : Trust)
      → requested_trust job.trust ≡ some r
      → All (λ u. trust_order r ≤ trust_order (trust_for u.target job.network_ids)) p.units
  plan-keeps_ceiling r asked =
      All-imp _ _ (λ u passed. passed_ceiling u.target passed) p.units plan-may_pass
    where
      passed_ceiling :
          (t : Target)
          → may_pass (policy_of f job override) (scan_sensitive f (prompt_text job)) t ≡ true
          → trust_order r ≤ trust_order (trust_for t job.network_ids)
      passed_ceiling t h =
          unfold may_pass policy_of new_policy meets_ceiling in
          ground (arith, leb→le (trust_order r) (trust_order (trust_for t job.network_ids)))
