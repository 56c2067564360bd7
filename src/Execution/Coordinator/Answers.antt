-- ===== src/Execution/Coordinator/Answers.antt =====
-- What `execute` of src/mycellm/execution/coordinator.py answers.
use mycellm.Prelude.{
  ℕ, ◌≡◌, inl, inr, refl, ap, subst, Option, none, some, Bool, true, false, List, [], ◌∷◌, filter,
  any, All, All-filter_self, is_nil, sym, take, if◌then◌else◌, arith, Bool-cases,
}
use mycellm.Prelude.Text.{is_empty}
use mycellm.Prelude.Sort.{max_from-of_All}
use mycellm.Execution.Models.{
  WorkUnit, WorkUnitResult, Job, ExecutionPlan, swarm, is_ok, synthesizer_of,
}
use mycellm.Execution.Coordinator.Gather.{
  Runner, Arrival, Meta, budget_exhausted, no_synthesizer, synthesis_failed, safe_run, exhausted,
  summary, gather_proposals,
}
use mycellm.Execution.Coordinator.{
  Outcome, degrade_by, failure, success, run_direct, longest, salvage, finish_synthesis, merge,
  settle_swarm, run_swarm, run_units, is_swarm, execute,
}
use mycellm.Execution.Coordinator.Landing.{runs, gather_proposals_all}

-- An error with no text, or a text and no error.
abbrev pub Answers : Outcome → Type 0
Answers o = elim o.error [ some e ↦ o.text ≡ [] | none ↦ is_empty o.text ≡ false ]

-- A text and no error.
abbrev pub Succeeds : Outcome → Type 0
Succeeds o = (o.error ≡ none) × (is_empty o.text ≡ false)

abbrev AllOk : List WorkUnitResult → Type 0
AllOk rs = All (λ r. is_ok r ≡ true) rs

any→filter {ℓ} :
    {A : Type ℓ} (p : A → Bool) (xs : List A) → any p xs ≡ true → is_nil (filter p xs) ≡ false
any→filter p [] h = absurd (cc)
any→filter p (x ∷ xs) h = elim (Bool-cases (p x)) [
  | inl e ↦ rw e refl
  | inr e ↦ rw e (any→filter p xs (rw e at h))
]

ok_text : (r : WorkUnitResult) → is_ok r ≡ true → is_empty r.text ≡ false
unfolding is_ok
ok_text r h = ground arith

Succeeds→Answers : (o : Outcome) → Succeeds o → Answers o
Succeeds→Answers o h = rw h.0 h.1

salvage-Succeeds :
    (r : WorkUnitResult) (rs : List WorkUnitResult) (spent : ℕ) (meta : Meta)
    → AllOk (r ∷ rs)
    → Succeeds (salvage r rs spent meta)
unfolding salvage longest success
salvage-Succeeds r rs spent meta h =
    (refl, ok_text _ (max_from-of_All _ (λ x. is_ok x ≡ true) r rs h.0 h.1))

finish_synthesis-Succeeds :
    (synth r : WorkUnitResult) (rs : List WorkUnitResult) (spent : ℕ) (meta : Meta)
    → AllOk (r ∷ rs)
    → Succeeds (finish_synthesis synth r rs spent meta)
unfolding finish_synthesis success
finish_synthesis-Succeeds synth r rs spent meta h = elim (Bool-cases (is_ok synth)) [
  | inl e ↦ rw e (refl, ok_text synth e)
  | inr e ↦
      rw e
        (salvage-Succeeds r rs spent (degrade_by (synthesis_failed (take 120 synth.error)) meta) h)
]

module _ (run : Runner) (job : Job) (budget : ℕ) where
  merge-Succeeds :
      (template : Option WorkUnit) (r : WorkUnitResult) (rs : List WorkUnitResult) (spent : ℕ)
      (meta : Meta)
      → AllOk (r ∷ rs)
      → Succeeds (merge run job budget template r rs spent meta)
  unfolding merge
  merge-Succeeds none r rs spent meta h =
      salvage-Succeeds r rs spent (degrade_by no_synthesizer meta) h
  merge-Succeeds (some t) r rs spent meta h = elim (Bool-cases (exhausted budget spent)) [
    | inl e ↦
        rw e (salvage-Succeeds r rs spent (record meta { degradation = some budget_exhausted }) h)
    | inr e ↦ rw e (finish_synthesis-Succeeds _ r rs spent meta h)
  ]

  settle_swarm-Succeeds :
      (template : Option WorkUnit) (good failed : List WorkUnitResult) (spent : ℕ) (meta : Meta)
      → AllOk good
      → is_nil good ≡ false
      → Succeeds (settle_swarm run job budget template good failed spent meta)
  unfolding settle_swarm success
  settle_swarm-Succeeds t [] failed spent meta h k = absurd (cc)
  settle_swarm-Succeeds t (r ∷ []) failed spent meta h k = (refl, ok_text r h.0)
  settle_swarm-Succeeds t (r ∷ (s ∷ rs)) failed spent meta h k =
      merge-Succeeds t r (s ∷ rs) spent meta h

  settle_swarm-Answers :
      (template : Option WorkUnit) (good failed : List WorkUnitResult) (spent : ℕ) (meta : Meta)
      → AllOk good
      → Answers (settle_swarm run job budget template good failed spent meta)
  unfolding settle_swarm failure
  settle_swarm-Answers t [] failed spent meta h = refl
  settle_swarm-Answers t (r ∷ rs) failed spent meta h =
      Succeeds→Answers (settle_swarm run job budget t (r ∷ rs) failed spent meta)
        (settle_swarm-Succeeds t (r ∷ rs) failed spent meta h refl)

module _ {ℓ} {R : Type ℓ} (run : Runner) (job : Job) (plan : ExecutionPlan R)
    (arrivals : List Arrival) where
  good-AllOk : AllOk (gather_proposals run plan arrivals).good
  unfolding gather_proposals summary
  good-AllOk = All-filter_self is_ok _

  run_swarm-Answers : Answers (run_swarm run job plan arrivals)
  unfolding run_swarm
  run_swarm-Answers =
      settle_swarm-Answers run job plan.token_budget (synthesizer_of plan)
        (gather_proposals run plan arrivals).good (gather_proposals run plan arrivals).failed
        (gather_proposals run plan arrivals).spent (gather_proposals run plan arrivals).meta
        good-AllOk

  run_direct-Answers : (u : WorkUnit) → Answers (run_direct run u)
  unfolding run_direct success failure
  run_direct-Answers u = elim (Bool-cases (is_ok (safe_run run u))) [
    | inl e ↦ rw e (ok_text _ e)
    | inr e ↦ rw e refl
  ]

  run_units-Answers : (us : List WorkUnit) → Answers (run_units run job plan arrivals us)
  unfolding run_units failure
  run_units-Answers [] = refl
  run_units-Answers (u ∷ us) = elim (Bool-cases (is_swarm plan.strategy)) [
    | inl e ↦ rw e run_swarm-Answers
    | inr e ↦ rw e (run_direct-Answers u)
  ]

  -- Every job that is executed ends with an error and no text, or with a text that is not empty and
  -- no error.
  pub execute-Answers : Answers (execute run job plan arrivals)
  unfolding execute
  execute-Answers = run_units-Answers plan.units

  -- The units of the plan run as a swarm.
  abbrev pub IsSwarmRun : Type 0
  IsSwarmRun = (plan.strategy ≡ swarm) × (is_nil plan.units ≡ false)

  run_units_swarm :
      (us : List WorkUnit)
      → plan.strategy ≡ swarm
      → is_nil us ≡ false
      → run_units run job plan arrivals us ≡ run_swarm run job plan arrivals
  unfolding run_units is_swarm
  run_units_swarm [] h k = absurd (cc)
  run_units_swarm (u ∷ us) h k =
      ap (λ s. if is_swarm s then run_swarm run job plan arrivals else run_direct run u) h

  pub execute_swarm : IsSwarmRun → execute run job plan arrivals ≡ run_swarm run job plan arrivals
  unfolding execute
  execute_swarm h = run_units_swarm plan.units h.0 h.1

  -- A swarm in which a proposal was good succeeds, whatever becomes of the others and of the synthesis.
  pub execute_keeps_work :
      IsSwarmRun
      → is_nil (gather_proposals run plan arrivals).good ≡ false
      → Succeeds (execute run job plan arrivals)
  unfolding run_swarm
  execute_keeps_work h k = subst Succeeds (sym (execute_swarm h)) (
      settle_swarm-Succeeds run job plan.token_budget (synthesizer_of plan)
        (gather_proposals run plan arrivals).good (gather_proposals run plan arrivals).failed
        (gather_proposals run plan arrivals).spent (gather_proposals run plan arrivals).meta
        good-AllOk k)

  -- A swarm with no token budget succeeds if any of its proposers does.
  pub execute_survives :
      IsSwarmRun
      → plan.token_budget ≡ 0
      → any is_ok (runs run arrivals) ≡ true
      → Succeeds (execute run job plan arrivals)
  execute_survives h b k = execute_keeps_work h (
      subst (λ rs. is_nil rs ≡ false) (sym (gather_proposals_all run plan arrivals b))
        (any→filter is_ok (runs run arrivals) k))
