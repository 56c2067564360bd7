-- ===== src/Execution/Coordinator/Landing.antt =====
-- What the fan-out of src/mycellm/execution/coordinator.py gathers, and what it spends.
use mycellm.Prelude.{
  ℕ, zero, suc, ◌+◌, ◌≤◌, ◌<◌, ◌≡◌, ◌⊎◌, inl, inr, refl, sym, ap, ◌∙◌, true, false, List, [], ◌∷◌,
  ◌++◌, map, length, take, filter, sum_of, negb, ◌&&◌, arith, Bool-cases, append-nil, append_assoc,
}
use mycellm.Execution.Models.{WorkUnitResult, ExecutionPlan, is_ok, proposers}
use mycellm.Execution.Coordinator.Gather.{
  Runner, Arrival, Landed, land, safe_run, exhausted, nothing_landed, summary, gather_proposals,
}

abbrev pub tokens : WorkUnitResult → ℕ
tokens r = r.completion_tokens

-- The results of the proposers, in the order in which they land.
abbrev pub runs : Runner → List Arrival → List WorkUnitResult
runs run arrivals = map (λ a. safe_run run a.unit) arrivals

-- The first `n` results land after what is there, each while the budget is not reached, and all
-- of them unless it is.
abbrev Lands : ℕ → List WorkUnitResult → Landed → Landed → Type 0
Lands budget rs acc l =
    (n : ℕ) × (n ≤ length rs)
    × (l.results ≡ acc.results ++ take n rs)
    × (l.spent ≡ acc.spent + sum_of tokens (take n rs))
    × ((m : ℕ) → m < n → acc.spent + sum_of tokens (take m rs) < budget)
    × ((n ≡ length rs) ⊎ (budget ≤ l.spent))

exhausted→le : (budget spent : ℕ) → exhausted budget spent ≡ true → budget ≤ spent
unfolding exhausted
exhausted→le budget spent h = ground arith

exhausted→lt : (budget spent : ℕ) → 0 < budget → exhausted budget spent ≡ false → spent < budget
unfolding exhausted
exhausted→lt budget spent h e = ground arith

-- Before the first result nothing more is spent than before.
spent_none :
    (m s budget : ℕ) (rs : List WorkUnitResult)
    → m < 1
    → s < budget
    → s + sum_of tokens (take m rs) < budget
spent_none zero s budget rs k h = omega arith
spent_none (suc m) s budget rs k h = absurd (omega arith)

spent_more :
    (m n s budget : ℕ) (r : WorkUnitResult) (rs : List WorkUnitResult)
    → s < budget
    → ((i : ℕ) → i < n → (s + tokens r) + sum_of tokens (take i rs) < budget)
    → m < suc n
    → s + sum_of tokens (take m (r ∷ rs)) < budget
spent_more zero n s budget r rs h before k = omega arith
spent_more (suc m) n s budget r rs h before k = omega (arith, before m (omega arith))

land-Lands :
    (run : Runner) (budget total : ℕ) (arrivals : List Arrival) (acc : Landed)
    → acc.spent < budget
    → Lands budget (runs run arrivals) acc (land run budget total arrivals acc)
unfolding land
land-Lands run budget total [] acc h = (
  0,
  omega arith,
  sym (append-nil acc.results),
  omega arith,
  λ m k. absurd (omega arith),
  inl refl,
)
land-Lands run budget total (a ∷ more) acc h =
    let spent = acc.spent + tokens (safe_run run a.unit) in
    elim (Bool-cases (exhausted budget spent)) [
      | inl e ↦ rw e (
        1,
        omega arith,
        refl,
        omega arith,
        λ m k. spent_none m acc.spent budget _ k h,
        inr (exhausted→le budget spent e),
      )
      | inr e ↦ rw e (
          let ih = land-Lands run budget total more _ (exhausted→lt budget spent (omega arith) e) in
          (
            suc ih.0,
            omega (arith, ih.1),
            ih.2 ∙ append_assoc acc.results _ _,
            omega (arith, ih.3),
            λ m k. spent_more m ih.0 acc.spent budget _ _ h ih.4 k,
            elim ih.5 [ inl done ↦ inl (omega arith) | inr full ↦ inr full ],
          ))
    ]

-- With no budget every proposer lands.
land_all :
    (run : Runner) (total : ℕ) (arrivals : List Arrival) (acc : Landed)
    → (land run 0 total arrivals acc).results ≡ acc.results ++ runs run arrivals
unfolding land exhausted
land_all run total [] acc = sym (append-nil acc.results)
land_all run total (a ∷ more) acc = land_all run total more _ ∙ append_assoc acc.results _ _

length-runs :
    (run : Runner) (arrivals : List Arrival) → length (runs run arrivals) ≡ length arrivals
length-runs run [] = refl
length-runs run (a ∷ more) = omega (arith, length-runs run more)

module _ {ℓ} {R : Type ℓ} (run : Runner) (plan : ExecutionPlan R) (arrivals : List Arrival) where
  -- With a token budget, the proposals are the successes among the first results to land, what is
  -- spent is the sum of their tokens, less than the budget was spent before the last of them, and
  -- all proposers land unless the budget is reached.
  pub gather_proposals_budget :
      0 < plan.token_budget
      → (n : ℕ) × (n ≤ length arrivals)
        × ((gather_proposals run plan arrivals).good ≡ filter is_ok (take n (runs run arrivals)))
        × ((gather_proposals run plan arrivals).spent ≡ sum_of tokens (take n (runs run arrivals)))
        × ((m : ℕ) → m < n → sum_of tokens (take m (runs run arrivals)) < plan.token_budget)
        × ((n ≡ length arrivals) ⊎ (plan.token_budget ≤ (gather_proposals run plan arrivals).spent))
  unfolding gather_proposals summary
  gather_proposals_budget h =
      let l =
        land-Lands run plan.token_budget (length (proposers plan)) arrivals nothing_landed h in
      (
        l.0,
        omega (arith, l.1, length-runs run arrivals),
        ap (λ rs. filter is_ok rs) l.2,
        omega (arith, l.3),
        λ m k. omega (arith, l.4 m k),
        elim l.5 [ inl done ↦ inl (omega (arith, length-runs run arrivals)) | inr full ↦ inr full ],
      )

  pub gather_proposals_all :
      plan.token_budget ≡ 0
      → (gather_proposals run plan arrivals).good ≡ filter is_ok (runs run arrivals)
  unfolding gather_proposals summary proposers
  gather_proposals_all h =
      rw h (
        ap (λ rs. filter is_ok rs) (land_all run (length (proposers plan)) arrivals nothing_landed))

-- The tasks that still run when a proposer lands are among those that land later.
abbrev pub InOrder : List Arrival → Type 0
InOrder [] = Unit
InOrder (a ∷ more) = (a.running ≤ length more) × InOrder more

length_snoc :
    (rs : List WorkUnitResult) (r : WorkUnitResult) → length (rs ++ r ∷ []) ≡ suc (length rs)
length_snoc [] r = refl
length_snoc (x ∷ rs) r = omega (arith, length_snoc rs r)

land_counts :
    (run : Runner) (budget total : ℕ) (arrivals : List Arrival) (acc : Landed)
    → InOrder arrivals
    → length (land run budget total arrivals acc).results
        + (land run budget total arrivals acc).cancelled_for_budget
      ≤ (length acc.results + acc.cancelled_for_budget) + length arrivals
unfolding land
land_counts run budget total [] acc h = omega arith
land_counts run budget total (a ∷ more) acc h =
    elim (Bool-cases (exhausted budget (acc.spent + tokens (safe_run run a.unit)))) [
      | inl e ↦ rw e omega (arith, h.0, length_snoc acc.results (safe_run run a.unit))
      | inr e ↦ rw e omega (
        arith,
        land_counts run budget total more _ h.1,
        length_snoc acc.results (safe_run run a.unit),
      )
    ]

split_le :
    (rs : List WorkUnitResult)
    → length (filter is_ok rs) + length (filter (λ r. negb (is_ok r) && negb r.cancelled) rs)
      ≤ length rs
split_le [] = omega arith
split_le (r ∷ rs) = elim (Bool-cases (is_ok r)) [
  | inl e ↦ rw e (omega (arith, split_le rs))
  | inr e ↦ elim (Bool-cases r.cancelled) [
    | inl c ↦ rw (e, c) (omega (arith, split_le rs))
    | inr c ↦ rw (e, c) (omega (arith, split_le rs))
  ]
]

-- The successes, the failures and the tasks cancelled for the budget that `meta` counts are
-- together at most the proposers planned.
pub gather_proposals_counts {ℓ} :
    {R : Type ℓ} (run : Runner) (plan : ExecutionPlan R) (arrivals : List Arrival)
    → length arrivals ≡ length (proposers plan)
    → InOrder arrivals
    → (gather_proposals run plan arrivals).meta.units_ok
        + (gather_proposals run plan arrivals).meta.units_failed
        + (gather_proposals run plan arrivals).meta.cancelled_for_budget
      ≤ (gather_proposals run plan arrivals).meta.proposers_planned
unfolding gather_proposals summary
gather_proposals_counts run plan arrivals h k =
    let planned = length (proposers plan) in
    omega (
      arith,
      h,
      land_counts run plan.token_budget planned arrivals nothing_landed k,
      split_le (land run plan.token_budget planned arrivals nothing_landed).results,
    )
