-- ===== src/Execution/Planner/Shape.antt =====
-- The shape of the plans of src/mycellm/execution/planner.py: a swarm has proposers and a
-- synthesizer that waits for them.
use mathlib.Core.Option
use mycellm.Prelude.{
  ℕ, suc, ◌+◌, ◌≤◌, ◌≡◌, ◌⊎◌, inl, inr, refl, ◌∙◌, sym, ap, Bool, Option, none, some, List, [], ◌∷◌,
  ◌++◌, arith, ltb, length, Bool-cases, filter, map,
}
use mycellm.Prelude.Sort.{sort_by}
use mycellm.Privacy.{Finder}
use mycellm.Execution.Models.{
  Target, WorkUnit, Job, Strategy, direct, replica, swarm, proposer, synthesizer, role_eq,
  proposers, UnitId,
}
use mycellm.Execution.Planner.{
  synthesis_unit, Plan, plan_direct, proposer_units, with_swarm, plan_swarm, dispatch,
  plan_eligible, plan, start_plan, eligible_for, degrade, strategy_of, comes_first, wanted,
}
use mycellm.Execution.Planner.Selection.{pick_proposers}
use mycellm.Execution.Planner.Rounds.{length-pick_proposers}
use mycellm.Execution.Planner.Egress.{OnSome, of_OnSome}

wanted_bounds : (job : Job) → (2 ≤ wanted job) × (wanted job ≤ 8)
unfolding wanted
wanted_bounds job = ground arith

length-proposer_units :
    (job : Job) (i : ℕ) (ts : List Target) → length (proposer_units job i ts) ≡ length ts
unfolding proposer_units
length-proposer_units job i [] = refl
length-proposer_units job i (t ∷ ts) = ap suc (length-proposer_units job (i + 1) ts)

abbrev is_proposer : WorkUnit → Bool
is_proposer u = role_eq u.role proposer

all_propose :
    (job : Job) (i : ℕ) (ts : List Target)
    → filter is_proposer (proposer_units job i ts) ≡ proposer_units job i ts
unfolding proposer_units role_eq
all_propose job i [] = refl
all_propose job i (t ∷ ts) = cc (all_propose job (i + 1) ts)

synthesis_proposes_not :
    (job : Job) (i : ℕ) (ts : List Target) (t : Target) (ids : List UnitId)
    → filter is_proposer (proposer_units job i ts ++ synthesis_unit job t ids ∷ [])
      ≡ proposer_units job i ts
unfolding proposer_units role_eq synthesis_unit
synthesis_proposes_not job i [] t ids = refl
synthesis_proposes_not job i (u ∷ us) t ids = cc (synthesis_proposes_not job (i + 1) us t ids)

-- A plan that runs as a swarm: two to eight proposers, and a synthesizer that depends on them all.
pub record IsSwarm (p : Plan) : Type 0 where
  pub synth : WorkUnit
  pub units : p.units ≡ proposers p ++ synth ∷ []
  pub role : synth.role ≡ synthesizer
  pub waits : synth.depends_on ≡ map (λ u. u.unit_id) (proposers p)
  pub enough : 2 ≤ length (proposers p)
  pub few : length (proposers p) ≤ 8

abbrev Shaped : Plan → Type 0
Shaped p = p.strategy ≡ swarm → (p.units ≡ []) ⊎ IsSwarm p

module _ (job : Job) (p : Plan) (chosen : List Target) (t : Target) (e : p.units ≡ []) where
  abbrev made : List WorkUnit
  made = proposer_units job 0 chosen

  abbrev merger : WorkUnit
  merger = synthesis_unit job t (map (λ u. u.unit_id) made)

  staged_lem : p.units ++ made ≡ made
  staged_lem = ap (λ us. us ++ made) e

  units-with_swarm : (with_swarm job p chosen t).units ≡ made ++ merger ∷ []
  unfolding with_swarm proposers
  units-with_swarm = rw staged_lem (rw (all_propose job 0 chosen))

  proposers-with_swarm : proposers (with_swarm job p chosen t) ≡ made
  unfolding proposers
  proposers-with_swarm =
      ap (filter is_proposer) units-with_swarm
      ∙ synthesis_proposes_not job 0 chosen t (map (λ u. u.unit_id) made)

  with_swarm-IsSwarm : 2 ≤ length chosen → length chosen ≤ 8 → IsSwarm (with_swarm job p chosen t)
  unfolding synthesis_unit
  with_swarm-IsSwarm h k = record {
    synth = merger;
    units = units-with_swarm ∙ ap (λ us. us ++ merger ∷ []) (sym proposers-with_swarm);
    role = refl;
    waits = ap (map (λ u. u.unit_id)) (sym proposers-with_swarm);
    enough = rw proposers-with_swarm (omega (arith, length-proposer_units job 0 chosen));
    few = rw proposers-with_swarm (omega (arith, length-proposer_units job 0 chosen));
  }

plan_direct-Shaped :
    (job : Job) (p : Plan) (el : List Target)
    → p.strategy ≡ direct
    → OnSome Shaped (plan_direct job p el)
unfolding plan_direct
plan_direct-Shaped job p [] e = tt
plan_direct-Shaped job p (t ∷ ts) e = λ h. absurd (cc)

map-Shaped :
    (job : Job) (p : Plan) (chosen : List Target) (o : Option Target)
    → p.units ≡ []
    → 2 ≤ length chosen
    → length chosen ≤ 8
    → OnSome Shaped (Option.map (with_swarm job p chosen) o)
map-Shaped job p chosen none e h k = tt
map-Shaped job p chosen (some t) e h k = λ s. inr (with_swarm-IsSwarm job p chosen t e h k)

plan_swarm-Shaped :
    (job : Job) (p : Plan) (el : List Target) → p.units ≡ [] → OnSome Shaped (plan_swarm job p el)
unfolding plan_swarm
plan_swarm-Shaped job p el e =
    let can_propose = eligible_for el proposer in
    let chosen = pick_proposers can_propose (wanted job) in
    let bounds = wanted_bounds job in
    let count = length-pick_proposers can_propose (wanted job) in
    elim (Bool-cases (ltb (length chosen) 2)) [
      | inl few ↦ rw few (plan_direct-Shaped job _ el (unfold degrade in refl))
      | inr enough ↦
          rw enough (map-Shaped job _ chosen _ e (ground arith) (omega (arith, count, bounds)))
    ]

dispatch-Shaped :
    (job : Job) (st : Strategy) (p : Plan) (el : List Target)
    → p.units ≡ []
    → p.strategy ≡ st
    → OnSome Shaped (dispatch job st p el)
unfolding dispatch
dispatch-Shaped job direct p el e s = plan_direct-Shaped job p el s
dispatch-Shaped job replica p el e s = replica_lem job p el s
  where
    replica_lem :
        (job : Job) (p : Plan) (el : List Target)
        → p.strategy ≡ replica
        → OnSome Shaped (plan_direct job p el)
    replica_lem job p [] s = unfold plan_direct in tt
    replica_lem job p (t ∷ ts) s = unfold plan_direct in λ h. absurd (cc)
dispatch-Shaped job swarm p el e s = plan_swarm-Shaped job p el e

plan_eligible-Shaped :
    (job : Job) (cs : List Target) (p : Plan) (el : List Target)
    → p.units ≡ []
    → p.strategy ≡ strategy_of job
    → OnSome Shaped (plan_eligible job cs p el)
unfolding plan_eligible
plan_eligible-Shaped job cs p [] e s = λ h. inl e
plan_eligible-Shaped job cs p (t ∷ ts) e s =
    dispatch-Shaped job (strategy_of job) p (sort_by comes_first (t ∷ ts)) e s

-- A plan with the swarm strategy either has no units, because no candidate is eligible, or is two
-- to eight proposers followed by one synthesizer, which waits for each of them.
pub plan-IsSwarm :
    (f : Finder) (job : Job) (candidates : List Target) (override : Bool) (p : Plan)
    → plan f job candidates override ≡ some p
    → p.strategy ≡ swarm
    → (p.units ≡ []) ⊎ IsSwarm p
unfolding plan start_plan
plan-IsSwarm f job candidates override p planned =
    of_OnSome Shaped (plan f job candidates override) p
      (plan_eligible-Shaped job candidates _ _ refl refl) planned
