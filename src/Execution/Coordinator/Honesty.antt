-- ===== src/Execution/Coordinator/Honesty.antt =====
-- What `meta` says of a swarm that `execute` of src/mycellm/execution/coordinator.py has run.
use mycellm.Prelude.{
  ℕ, ◌≡◌, ◌⊎◌, inl, inr, refl, sym, subst, Option, none, some, Bool, true, false, ◌||◌, List, [],
  ◌∷◌, ◌&&◌, is_nil, ltb, negb, any, filter, length, arith, Bool-cases,
}
use mycellm.Execution.Models.{
  WorkUnit, WorkUnitResult, Job, ExecutionPlan, is_ok, proposers, synthesizer_of,
}
use mycellm.Execution.Coordinator.Gather.{
  Runner, Arrival, Landed, land, nothing_landed, Meta, budget_exhausted, exhausted, summary,
  gather_proposals,
}
use mycellm.Execution.Coordinator.{
  Outcome, failure, success, salvage, finish_synthesis, merge, settle_swarm, run_swarm, execute,
}
use mycellm.Execution.Coordinator.Answers.{IsSwarmRun, execute_swarm}

-- A proposal that is not good, and was not cancelled.
abbrev pub failed_itself : WorkUnitResult → Bool
failed_itself r = negb (is_ok r) && negb r.cancelled

is_nil-filter {ℓ} :
    {A : Type ℓ} (p : A → Bool) (xs : List A) → is_nil (filter p xs) ≡ negb (any p xs)
is_nil-filter p [] = refl
is_nil-filter p (x ∷ xs) = elim (Bool-cases (p x)) [
  | inl e ↦ rw e refl
  | inr e ↦ rw e (is_nil-filter p xs)
]

-- What the end of a swarm keeps of the `meta` of its fan-out: the degradation that it shows, and
-- that no synthesis is named once the budget is spent.
abbrev Honest : Bool → Meta → Outcome → Type 0
Honest spent meta o =
    (meta.degraded ≡ true → o.meta.degraded ≡ true)
    × (spent ≡ true → o.meta.synthesized_by ≡ none)
    × ((o.meta.degradation ≡ none)
        ⊎ (o.meta.degraded ≡ true)
        ⊎ (o.meta.degradation ≡ some budget_exhausted))

finish_synthesis-Honest :
    (spent_out : Bool) (synth r : WorkUnitResult) (rs : List WorkUnitResult) (spent : ℕ)
    (meta : Meta)
    → spent_out ≡ false
    → meta.synthesized_by ≡ none
    → meta.degradation ≡ none
    → Honest spent_out meta (finish_synthesis synth r rs spent meta)
unfolding finish_synthesis success salvage
finish_synthesis-Honest b synth r rs spent meta f h k = elim (Bool-cases (is_ok synth)) [
  | inl e ↦ rw e (λ d. d, λ s. absurd (cc), inl k)
  | inr e ↦ rw e (λ d. refl, λ s. h, inr (inl refl))
]

module _ (run : Runner) (job : Job) (budget : ℕ) where
  merge-Honest :
      (template : Option WorkUnit) (r : WorkUnitResult) (rs : List WorkUnitResult) (spent : ℕ)
      (meta : Meta)
      → meta.synthesized_by ≡ none
      → meta.degradation ≡ none
      → Honest (exhausted budget spent) meta (merge run job budget template r rs spent meta)
  unfolding merge salvage success
  merge-Honest none r rs spent meta h k = (λ d. refl, λ s. h, inr (inl refl))
  merge-Honest (some t) r rs spent meta h k = elim (Bool-cases (exhausted budget spent)) [
    | inl e ↦ rw e (λ d. d, λ s. h, inr (inr refl))
    | inr e ↦ rw e (finish_synthesis-Honest false _ r rs spent meta refl h k)
  ]

  settle_swarm-Honest :
      (template : Option WorkUnit) (good failed : List WorkUnitResult) (spent : ℕ) (meta : Meta)
      → meta.synthesized_by ≡ none
      → meta.degradation ≡ none
      → Honest
          (exhausted budget spent)
          meta
          (settle_swarm run job budget template good failed spent meta)
  unfolding settle_swarm success failure
  settle_swarm-Honest t [] failed spent meta h k = (λ d. d, λ s. h, inl k)
  settle_swarm-Honest t (r ∷ []) failed spent meta h k = (λ d. refl, λ s. h, inr (inl refl))
  settle_swarm-Honest t (r ∷ (s ∷ rs)) failed spent meta h k =
      merge-Honest t r (s ∷ rs) spent meta h k

module _ {ℓ} {R : Type ℓ} (run : Runner) (job : Job) (plan : ExecutionPlan R)
    (arrivals : List Arrival) where
  run_swarm-Honest :
      Honest
        (exhausted plan.token_budget (gather_proposals run plan arrivals).spent)
        (gather_proposals run plan arrivals).meta
        (run_swarm run job plan arrivals)
  unfolding run_swarm gather_proposals summary
  run_swarm-Honest =
      settle_swarm-Honest run job plan.token_budget (synthesizer_of plan)
        (gather_proposals run plan arrivals).good (gather_proposals run plan arrivals).failed
        (gather_proposals run plan arrivals).spent (gather_proposals run plan arrivals).meta refl
        refl

  -- What has landed when the fan-out ends.
  abbrev pub landed : Landed
  landed = land run plan.token_budget (length (proposers plan)) arrivals nothing_landed

  gather_degraded :
      any failed_itself landed.results || ltb 0 landed.cancelled_for_budget ≡ true
      → (gather_proposals run plan arrivals).meta.degraded ≡ true
  unfolding gather_proposals summary
  gather_degraded h = rw (is_nil-filter failed_itself landed.results) (ground arith)

  execute-Honest :
      IsSwarmRun run job plan arrivals
      → Honest
          (exhausted plan.token_budget (gather_proposals run plan arrivals).spent)
          (gather_proposals run plan arrivals).meta
          (execute run job plan arrivals)
  execute-Honest h =
      subst (Honest _ (gather_proposals run plan arrivals).meta)
        (sym (execute_swarm run job plan arrivals h)) run_swarm-Honest

  -- Once the proposers have spent the token budget of a swarm, no synthesis is paid for: `meta`
  -- names no synthesizer.
  pub execute_keeps_budget :
      IsSwarmRun run job plan arrivals
      → exhausted plan.token_budget (gather_proposals run plan arrivals).spent ≡ true
      → (execute run job plan arrivals).meta.synthesized_by ≡ none
  execute_keeps_budget h = (execute-Honest h).1

  -- A swarm in which a result that landed failed and was not cancelled, or proposers were cancelled for
  -- the budget, says that it is degraded.
  -- A swarm with a degradation says so too, unless the degradation is that the budget was
  -- exhausted before synthesis.
  pub execute_says_degraded :
      IsSwarmRun run job plan arrivals
      → (((any failed_itself landed.results || ltb 0 landed.cancelled_for_budget) ≡ true)
          → (execute run job plan arrivals).meta.degraded ≡ true)
        × (((execute run job plan arrivals).meta.degradation ≡ none)
            ⊎ ((execute run job plan arrivals).meta.degraded ≡ true)
            ⊎ ((execute run job plan arrivals).meta.degradation ≡ some budget_exhausted))
  execute_says_degraded h = (λ d. (execute-Honest h).0 (gather_degraded d), (execute-Honest h).2)
