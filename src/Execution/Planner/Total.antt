-- ===== src/Execution/Planner/Total.antt =====
-- The planner of src/mycellm/execution/planner.py makes a plan for every job.
use mathlib.Core.Option
use mycellm.Prelude.{
  ◌≡◌, inl, inr, refl, Bool, false, Option, some, List, [], ◌∷◌, arith, ltb, length, Bool-cases,
  filter, negb, any, all, is_nil,
}
use mycellm.Prelude.Sort.{insert_by, sort_by}
use mycellm.Privacy.{Finder}
use mycellm.Execution.Models.{
  Target, Job, Strategy, direct, replica, swarm, proposer, synthesizer, is_remote, target_eq,
}
use mycellm.Execution.Planner.{
  Plan, plan_direct, plan_swarm, dispatch, plan_eligible, plan, eligible_for, strategy_of,
  comes_first, wanted,
}
use mycellm.Execution.Planner.Selection.{
  pick_proposers, pick_synthesizer, max_of, proven_pool, or_list, local_of, strongest, fastest_or,
}

abbrev Made {ℓ} : {A : Type ℓ} → Option A → Type ℓ
Made {A} o = (a : A) × (o ≡ some a)

plan_direct-Made :
    (job : Job) (p : Plan) (el : List Target) → is_nil el ≡ false → Made (plan_direct job p el)
unfolding plan_direct
plan_direct-Made job p [] h = absurd (cc)
plan_direct-Made job p (t ∷ ts) h = (_, refl)

max_of-Made :
    (better : Target → Target → Bool) (ts : List Target)
    → is_nil ts ≡ false
    → Made (max_of better ts)
unfolding max_of
max_of-Made better [] h = absurd (cc)
max_of-Made better (t ∷ ts) h = (_, refl)

or_list-is_nil : (xs ys : List Target) → is_nil ys ≡ false → is_nil (or_list xs ys) ≡ false
or_list-is_nil [] ys h = h
or_list-is_nil (x ∷ xs) ys h = refl

strongest-Made : (el chosen : List Target) → is_nil el ≡ false → Made (strongest el chosen)
unfolding strongest proven_pool
strongest-Made el chosen h =
    max_of-Made _ _ (or_list-is_nil (filter (λ t. any (target_eq t) chosen) el) el h)

fastest_or-Made : (ts : List Target) (o : Option Target) → Made o → Made (fastest_or ts o)
unfolding fastest_or
fastest_or-Made [] o m = m
fastest_or-Made (t ∷ ts) o m = max_of-Made _ (t ∷ ts) refl

pick_synthesizer-Made :
    (el chosen : List Target) → is_nil el ≡ false → Made (pick_synthesizer el chosen)
unfolding pick_synthesizer
pick_synthesizer-Made el chosen h = elim (Bool-cases (all (λ t. negb (is_remote t)) chosen)) [
  | inl e ↦ rw e (fastest_or-Made (local_of el) _ (strongest-Made el chosen h))
  | inr e ↦ rw e (strongest-Made el chosen h)
]

map-Made {ℓ κ} :
    {A : Type ℓ} {B : Type κ} (g : A → B) (o : Option A) → Made o → Made (Option.map g o)
map-Made g o (a, e) = (g a, rw e)

plan_swarm-Made :
    (job : Job) (p : Plan) (el : List Target) → is_nil el ≡ false → Made (plan_swarm job p el)
unfolding plan_swarm
plan_swarm-Made job p el h =
    let chosen = pick_proposers (eligible_for el proposer) (wanted job) in
    elim (Bool-cases (ltb (length chosen) 2)) [
      | inl e ↦ rw e (plan_direct-Made job _ el h)
      | inr e ↦ rw e (
          map-Made _ _
            (pick_synthesizer-Made _ chosen (or_list-is_nil (eligible_for el synthesizer) el h)))
    ]

dispatch-Made :
    (job : Job) (st : Strategy) (p : Plan) (el : List Target)
    → is_nil el ≡ false
    → Made (dispatch job st p el)
unfolding dispatch
dispatch-Made job direct p el h = plan_direct-Made job p el h
dispatch-Made job replica p el h = plan_direct-Made job p el h
dispatch-Made job swarm p el h = plan_swarm-Made job p el h

insert_by-is_nil :
    (before : Target → Target → Bool) (x : Target) (ys : List Target)
    → is_nil (insert_by before x ys) ≡ false
unfolding insert_by
insert_by-is_nil before x [] = refl
insert_by-is_nil before x (y ∷ ys) = ground arith

plan_eligible-Made :
    (job : Job) (cs : List Target) (p : Plan) (el : List Target) → Made (plan_eligible job cs p el)
unfolding plan_eligible sort_by
plan_eligible-Made job cs p [] = (_, refl)
plan_eligible-Made job cs p (t ∷ ts) =
    dispatch-Made job (strategy_of job) p (sort_by comes_first (t ∷ ts))
      (insert_by-is_nil comes_first t (sort_by comes_first ts))

-- The planner never raises: for every job and every list of candidates there is a plan.
pub plan_total :
    (f : Finder) (job : Job) (candidates : List Target) (override : Bool)
    → (p : Plan) × (plan f job candidates override ≡ some p)
unfolding plan
plan_total f job candidates override = plan_eligible-Made job candidates _ _
